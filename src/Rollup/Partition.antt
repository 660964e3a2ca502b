-- ===== src/Rollup/Partition.antt =====
-- `rollupNumeric` of pkg/consumer/data/rollup.go on the items of the parts of a series, against
-- `aggregateNumeric` on the whole series.
use mathlib.Core.List.{append-nil}
use harns.Prelude.{
  ℕ, ◌≡◌, refl, sym, ap, ◌∙◌, arith, Bool, List, [], ◌∷◌, ◌++◌, map, length, length-append, get_or,
  if◌then◌else◌,
}
use harns.Rollup.{Field}
use harns.Rollup.Numbers.{
  Floats, RollupNumericItem, start_extremes, number, aggregate_fields, rollup_items, sum_cnts,
  last_or, low_of, high_of,
}
use harns.Rollup.Extremes.{
  IsOrdered, IsOrdered-flip, pick, pick_self, pick-append, pick-cons, pick-map, extremes-least,
  extremes-greatest,
}

-- A part of a series: its first field and the others.
abbrev pub Part : Type 0 → Type 0
Part F = Field F × List (Field F)

-- The fields of the parts, one part after the other.
abbrev pub fields_of : {F : Type 0} → List (Part F) → List (Field F)
fields_of [] = []
fields_of (c ∷ cs) = c.0 ∷ c.1 ++ fields_of cs

module _ {F : Type 0} where
  abbrev pub first_field : RollupNumericItem F → Field F
  first_field r = record { value = r.first_value; time = r.first_time }

  abbrev pub last_field : RollupNumericItem F → Field F
  last_field r = record { value = r.last_value; time = r.last_time }

  abbrev pub min_field : RollupNumericItem F → Field F
  min_field r = record { value = r.min_value; time = r.min_time }

  abbrev pub max_field : RollupNumericItem F → Field F
  max_field r = record { value = r.max_value; time = r.max_time }

module _ {F : Type 0} (fl : Floats F) where
  abbrev flipped : F → F → Bool
  flipped a b = fl.lt b a

  abbrev pub aggregate : Part F → RollupNumericItem F
  aggregate c = aggregate_fields fl c.0 c.1

  min-aggregate : (c : Part F) → min_field (aggregate c) ≡ pick fl.lt (number fl) c.0 c.1
  unfolding aggregate_fields
  min-aggregate c =
      extremes-least fl (number fl) (number fl) (number fl) (c.0 ∷ c.1) c.0 (c.0 ∷ c.1)
        (start_extremes fl (number fl) (number fl) c.0) 0
        (λ k. ap (λ (n : ℕ). get_or (c.0 ∷ c.1) n c.0) (omega arith)) refl
      ∙ pick_self fl.lt (number fl) c.0 c.1

  max-aggregate : (c : Part F) → max_field (aggregate c) ≡ pick flipped (number fl) c.0 c.1
  unfolding aggregate_fields
  max-aggregate c =
      extremes-greatest fl (number fl) (number fl) (number fl) (c.0 ∷ c.1) c.0 (c.0 ∷ c.1)
        (start_extremes fl (number fl) (number fl) c.0) 0
        (λ k. ap (λ (n : ℕ). get_or (c.0 ∷ c.1) n c.0) (omega arith)) refl
      ∙ pick_self flipped (number fl) c.0 c.1

  module _ (x : RollupNumericItem F) (xs : List (RollupNumericItem F)) where
    pub min-rollup :
        min_field (rollup_items fl x xs) ≡ pick fl.lt (number fl) (min_field x) (map min_field xs)
    unfolding rollup_items
    min-rollup =
        ap min_field (
          extremes-least fl (low_of fl) (high_of fl) (λ f. f.sum) (x ∷ xs) x (x ∷ xs)
            (start_extremes fl (low_of fl) (high_of fl) x) 0
            (λ k. ap (λ (n : ℕ). get_or (x ∷ xs) n x) (omega arith)) refl
          ∙ pick_self fl.lt (low_of fl) x xs)
        ∙ pick-map fl.lt (number fl) min_field x xs

    pub max-rollup :
        max_field (rollup_items fl x xs) ≡ pick flipped (number fl) (max_field x) (map max_field xs)
    unfolding rollup_items
    max-rollup =
        ap max_field (
          extremes-greatest fl (low_of fl) (high_of fl) (λ f. f.sum) (x ∷ xs) x (x ∷ xs)
            (start_extremes fl (low_of fl) (high_of fl) x) 0
            (λ k. ap (λ (n : ℕ). get_or (x ∷ xs) n x) (omega arith)) refl
          ∙ pick_self flipped (high_of fl) x xs)
        ∙ pick-map flipped (number fl) max_field x xs

  pick-parts :
      (lt : F → F → Bool) (f : RollupNumericItem F → Field F)
      → IsOrdered lt
      → ((c : Part F) → f (aggregate c) ≡ pick lt (number fl) c.0 c.1)
      → (cs : List (Part F)) (a : Field F)
      → pick lt (number fl) a (fields_of cs) ≡ pick lt (number fl) a (map f (map aggregate cs))
  pick-parts lt f o h [] a = refl
  pick-parts lt f o h (c ∷ cs) a =
      pick-append lt (number fl) a (c.0 ∷ c.1) (fields_of cs)
      ∙ ap (λ b. pick lt (number fl) b (fields_of cs)) (pick-cons lt (number fl) o a c.0 c.1)
      ∙ pick-parts lt f o h cs _
      ∙ ap
          (λ b.
            pick lt (number fl) (if lt (number fl b) (number fl a) then b else a)
              (map f (map aggregate cs)))
          (sym (h c))

  last_or-append :
      {A : Type 0} (a : A) (bs : List A) (y : A) (ys : List A)
      → last_or a (bs ++ y ∷ ys) ≡ last_or y ys
  last_or-append a [] y ys = refl
  last_or-append a (b ∷ bs) y ys = last_or-append b bs y ys

  last-parts :
      (c : Part F) (cs : List (Part F))
      → last_field (last_or (aggregate c) (map aggregate cs)) ≡ last_or c.0 (c.1 ++ fields_of cs)
  unfolding aggregate_fields
  last-parts c [] = ap (last_or c.0) (sym (append-nil c.1))
  last-parts c (e ∷ cs) = last-parts e cs ∙ sym (last_or-append c.0 c.1 e.0 (e.1 ++ fields_of cs))

  cnt-parts :
      (cs : List (Part F))
      → (sum_cnts fl (λ f. f.good_cnt) (map aggregate cs) ≡ length (fields_of cs))
        × (sum_cnts fl (λ f. f.bad_cnt) (map aggregate cs) ≡ 0)
        × (sum_cnts fl (λ f. f.uncertain_cnt) (map aggregate cs) ≡ 0)
  unfolding sum_cnts aggregate_fields
  cnt-parts [] = (refl, refl, refl)
  cnt-parts (c ∷ cs) =
      let ih = cnt-parts cs in let len = length-append c.1 (fields_of cs) in omega (arith, ih, len)

  min-whole :
      IsOrdered fl.lt
      → (c : Part F) (cs : List (Part F))
      → min_field (rollup_items fl (aggregate c) (map aggregate cs))
        ≡ min_field (aggregate (c.0, c.1 ++ fields_of cs))
  min-whole o c cs =
      let rest = map min_field (map aggregate cs) in
      min-rollup (aggregate c) (map aggregate cs)
      ∙ ap (λ a. pick fl.lt (number fl) a rest) (min-aggregate c)
      ∙ sym (pick-parts fl.lt min_field o min-aggregate cs (pick fl.lt (number fl) c.0 c.1))
      ∙ sym (pick-append fl.lt (number fl) c.0 c.1 (fields_of cs))
      ∙ sym (min-aggregate (c.0, c.1 ++ fields_of cs))

  max-whole :
      IsOrdered fl.lt
      → (c : Part F) (cs : List (Part F))
      → max_field (rollup_items fl (aggregate c) (map aggregate cs))
        ≡ max_field (aggregate (c.0, c.1 ++ fields_of cs))
  max-whole o c cs =
      let rest = map max_field (map aggregate cs) in
      max-rollup (aggregate c) (map aggregate cs)
      ∙ ap (λ a. pick flipped (number fl) a rest) (max-aggregate c)
      ∙ sym (
          pick-parts flipped max_field (IsOrdered-flip fl.lt o) max-aggregate cs
            (pick flipped (number fl) c.0 c.1))
      ∙ sym (pick-append flipped (number fl) c.0 c.1 (fields_of cs))
      ∙ sym (max-aggregate (c.0, c.1 ++ fields_of cs))

-- For float64 without NaN, take the items that `aggregateNumeric` makes of the parts of a series, none
-- of them empty. Then `rollupNumeric` makes of them an item with the first, the last, the least and the
-- greatest field (value and time) and with the counters that `aggregateNumeric` finds in the whole
-- series.
pub rollup_items-aggregate :
    {F : Type 0} (fl : Floats F) (c : Part F) (cs : List (Part F))
    → IsOrdered fl.lt
    → let r = rollup_items fl (aggregate fl c) (map (aggregate fl) cs) in
      let w = aggregate_fields fl c.0 (c.1 ++ fields_of cs) in
      (first_field r ≡ first_field w)
      × (last_field r ≡ last_field w)
      × (min_field r ≡ min_field w)
      × (max_field r ≡ max_field w)
      × (r.good_cnt ≡ w.good_cnt)
      × (r.bad_cnt ≡ w.bad_cnt)
      × (r.uncertain_cnt ≡ w.uncertain_cnt)
unfolding rollup_items aggregate_fields
rollup_items-aggregate fl c cs o =
    let cnts = cnt-parts fl (c ∷ cs) in
    (refl, last-parts fl c cs, min-whole fl o c cs, max-whole fl o c cs, cnts.0, cnts.1, cnts.2)
