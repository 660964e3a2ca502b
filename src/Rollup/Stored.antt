-- ===== src/Rollup/Stored.antt =====
-- `rollupNumeric` of pkg/consumer/data/rollup.go on the items that `persistRollup` writes as JSON.
use harns.Prelude.{ℕ, ◌≡◌, refl, sym, ap, ◌∙◌, List, [], ◌∷◌, ◌++◌, map, Bool, if◌then◌else◌}
use harns.Rollup.{Value, truth, float64, int64, int, text, Field}
use harns.Rollup.Numbers.{
  Floats, RollupNumericItem, number, to_float64, aggregate_fields, rollup_items, sum_cnts, last_or,
}
use harns.Rollup.Extremes.{IsOrdered, pick, apply_if}
use harns.Rollup.Partition.{
  Part, aggregate, fields_of, first_field, last_field, min_field, max_field, min-rollup, max-rollup,
  rollup_items-aggregate,
}

module _ {F : Type 0} (fl : Floats F) where
  -- What `json.Unmarshal` gives for a value that `json.Marshal` wrote: a number comes back as a float64.
  abbrev pub read_value : Value F → Value F
  read_value (truth b) = truth b
  read_value (float64 x) = float64 x
  read_value (int64 n) = float64 (fl.of_int n)
  read_value (int n) = float64 (fl.of_int n)
  read_value text = text

  -- An item that was written as JSON and read again.
  abbrev pub read_item : RollupNumericItem F → RollupNumericItem F
  read_item r = record r {
    first_value = read_value r.first_value;
    last_value = read_value r.last_value;
    min_value = read_value r.min_value;
    max_value = read_value r.max_value;
  }

  abbrev pub read_field : Field F → Field F
  read_field f = record f { value = read_value f.value }

  to_float64-read_value : (v : Value F) → to_float64 fl (read_value v) ≡ to_float64 fl v
  unfolding to_float64
  to_float64-read_value (truth b) = refl
  to_float64-read_value (float64 x) = refl
  to_float64-read_value (int64 n) = refl
  to_float64-read_value (int n) = refl
  to_float64-read_value text = refl

  number-read_field : (f : Field F) → number fl (read_field f) ≡ number fl f
  number-read_field f = to_float64-read_value f.value

  -- The choice among fields is the same after they were read again.
  pick-read_field :
      (lt : F → F → Bool) (a : Field F) (bs : List (Field F))
      → pick lt (number fl) (read_field a) (map read_field bs)
        ≡ read_field (pick lt (number fl) a bs)
  pick-read_field lt a [] = refl
  pick-read_field lt a (b ∷ bs) =
      ap (λ (c : Field F). pick lt (number fl) c (map read_field bs))
        (rw (number-read_field a, number-read_field b)
          (sym (apply_if read_field (lt (number fl b) (number fl a)) b a)))
      ∙ pick-read_field lt (if lt (number fl b) (number fl a) then b else a) bs

  map-read_item :
      (f : RollupNumericItem F → Field F)
      → ((x : RollupNumericItem F) → f (read_item x) ≡ read_field (f x))
      → (xs : List (RollupNumericItem F)) → map f (map read_item xs) ≡ map read_field (map f xs)
  map-read_item f h [] = refl
  map-read_item f h (x ∷ xs) = rw (h x, map-read_item f h xs) refl

  last_or-read_item :
      (x : RollupNumericItem F) (xs : List (RollupNumericItem F))
      → last_or (read_item x) (map read_item xs) ≡ read_item (last_or x xs)
  last_or-read_item x [] = refl
  last_or-read_item x (y ∷ xs) = last_or-read_item y xs

  sum_cnts-read_item :
      (cnt : RollupNumericItem F → ℕ)
      → ((x : RollupNumericItem F) → cnt (read_item x) ≡ cnt x)
      → (xs : List (RollupNumericItem F)) → sum_cnts fl cnt (map read_item xs) ≡ sum_cnts fl cnt xs
  unfolding sum_cnts
  sum_cnts-read_item cnt h [] = refl
  sum_cnts-read_item cnt h (x ∷ xs) = rw (h x, sum_cnts-read_item cnt h xs) refl

  module _ (x : RollupNumericItem F) (xs : List (RollupNumericItem F)) where
    min-read_item :
        min_field (rollup_items fl (read_item x) (map read_item xs))
        ≡ read_field (min_field (rollup_items fl x xs))
    min-read_item =
        min-rollup fl (read_item x) (map read_item xs)
        ∙ rw (map-read_item min_field (λ y. refl) xs)
            (pick-read_field fl.lt (min_field x) (map min_field xs))
        ∙ ap read_field (sym (min-rollup fl x xs))

    max-read_item :
        max_field (rollup_items fl (read_item x) (map read_item xs))
        ≡ read_field (max_field (rollup_items fl x xs))
    max-read_item =
        max-rollup fl (read_item x) (map read_item xs)
        ∙ rw (map-read_item max_field (λ y. refl) xs)
            (pick-read_field (λ a b. fl.lt b a) (max_field x) (map max_field xs))
        ∙ ap read_field (sym (max-rollup fl x xs))

    last-read_item :
        last_field (rollup_items fl (read_item x) (map read_item xs))
        ≡ read_field (last_field (rollup_items fl x xs))
    unfolding rollup_items
    last-read_item = ap last_field (last_or-read_item x xs)

-- For float64 without NaN and infinities, take the items that `aggregateNumeric` makes of the parts of a
-- series, none of them empty, as they are after they were written as JSON and read again, where an int
-- or int64 value comes back as a float64. Then `rollupNumeric` makes of them an item with the first, the last, the
-- least and the greatest field (time, and value as it is read again) and with the counters that
-- `aggregateNumeric` finds in the whole series.
pub rollup_items-read_item :
    {F : Type 0} (fl : Floats F) (c : Part F) (cs : List (Part F))
    → IsOrdered fl.lt
    → let r =
        rollup_items fl
          (read_item fl (aggregate fl c))
          (map (read_item fl) (map (aggregate fl) cs)) in
      let w = aggregate_fields fl c.0 (c.1 ++ fields_of cs) in
      (first_field r ≡ read_field fl (first_field w))
      × (last_field r ≡ read_field fl (last_field w))
      × (min_field r ≡ read_field fl (min_field w))
      × (max_field r ≡ read_field fl (max_field w))
      × (r.good_cnt ≡ w.good_cnt)
      × (r.bad_cnt ≡ w.bad_cnt)
      × (r.uncertain_cnt ≡ w.uncertain_cnt)
unfolding rollup_items
rollup_items-read_item fl c cs o =
    let x = aggregate fl c in
    let xs = map (aggregate fl) cs in
    let (first, last, least, greatest, good, bad, uncertain) = rollup_items-aggregate fl c cs o in
    (
      ap (read_field fl) first,
      last-read_item fl x xs ∙ ap (read_field fl) last,
      min-read_item fl x xs ∙ ap (read_field fl) least,
      max-read_item fl x xs ∙ ap (read_field fl) greatest,
      sum_cnts-read_item fl (λ f. f.good_cnt) (λ y. refl) (x ∷ xs) ∙ good,
      sum_cnts-read_item fl (λ f. f.bad_cnt) (λ y. refl) (x ∷ xs) ∙ bad,
      sum_cnts-read_item fl (λ f. f.uncertain_cnt) (λ y. refl) (x ∷ xs) ∙ uncertain,
    )
