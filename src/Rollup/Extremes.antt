-- ===== src/Rollup/Extremes.antt =====
-- The loops of pkg/consumer/data/rollup.go over the values find the first least and the first greatest
-- of them.
use harns.Prelude.{
  ℕ, suc, ◌+◌, ◌≡◌, refl, sym, ap, ◌∙◌, arith, Bool, true, false, List, [], ◌∷◌, ◌++◌, map,
  if◌then◌else◌, get_or,
}
use harns.Rollup.Numbers.{Floats, Extremes, extremes}

-- An order without incomparable values: that of float64 without NaN.
pub record IsOrdered {F : Type 0} (lt : F → F → Bool) : Type 0 where
  pub trans : (a b c : F) → lt a b ≡ true → lt b c ≡ true → lt a c ≡ true
  pub cotrans : (a b c : F) → lt a b ≡ false → lt b c ≡ false → lt a c ≡ false

pub IsOrdered-flip : {F : Type 0} (lt : F → F → Bool) → IsOrdered lt → IsOrdered (λ a b. lt b a)
IsOrdered-flip lt o = record {
  trans = λ a b c h k. o.trans c b a k h;
  cotrans = λ a b c h k. o.cotrans c b a k h;
}

module _ {F A : Type 0} (lt : F → F → Bool) (key : A → F) where
  -- The later of two entries if its value is less.
  abbrev pub choose : A → A → A
  choose a b = if lt (key b) (key a) then b else a

  -- The first of the entries with the least value.
  abbrev pub pick : A → List A → A
  pick a [] = a
  pick a (b ∷ bs) = pick (choose a b) bs

  pub pick_self : (a : A) (bs : List A) → pick a (a ∷ bs) ≡ pick a bs
  pick_self a bs = ap (λ c. pick c bs) (ground arith)

  pub pick-append : (a : A) (bs cs : List A) → pick a (bs ++ cs) ≡ pick (pick a bs) cs
  pick-append a [] cs = refl
  pick-append a (b ∷ bs) cs = pick-append (choose a b) bs cs

  choose_assoc : IsOrdered lt → (a b c : A) → choose (choose a b) c ≡ choose a (choose b c)
  choose_assoc o a b c =
      ground (arith, o.trans (key c) (key b) (key a), o.cotrans (key c) (key b) (key a))

  -- The choice among the later entries can be made first.
  pub pick-cons : IsOrdered lt → (a b : A) (bs : List A) → pick a (b ∷ bs) ≡ choose a (pick b bs)
  pick-cons o a b [] = refl
  pick-cons o a b (c ∷ bs) =
      ap (λ d. pick d bs) (choose_assoc o a b c) ∙ pick-cons o a (choose b c) bs

pub apply_if :
    {A B : Type 0} (f : A → B) (t : Bool) (a b : A)
    → f (if t then a else b) ≡ (if t then f a else f b)
apply_if f true a b = refl
apply_if f false a b = refl

pub pick-map :
    {F A B : Type 0} (lt : F → F → Bool) (key : B → F) (f : A → B) (a : A) (as' : List A)
    → f (pick lt (λ x. key (f x)) a as') ≡ pick lt key (f a) (map f as')
pick-map lt key f a [] = refl
pick-map lt key f a (b ∷ bs) =
    pick-map lt key f (choose lt (λ x. key (f x)) a b) bs
    ∙ ap (λ c. pick lt key c (map f bs)) (apply_if f (lt (key (f b)) (key (f a))) b a)

module _ {F A : Type 0} (fl : Floats F) (low high part : A → F) (all : List A) (d : A) where
  -- The entries that are left stand behind index `i`.
  abbrev Behind : ℕ → List A → Type 0
  Behind i xs = (k : ℕ) → get_or all (i + k) d ≡ get_or xs k d

  Behind-head : (i : ℕ) (x : A) (xs : List A) → Behind i (x ∷ xs) → get_or all i d ≡ x
  Behind-head i x xs h = ap (λ (n : ℕ). get_or all n d) (omega arith) ∙ h 0

  Behind-tail : (i : ℕ) (x : A) (xs : List A) → Behind i (x ∷ xs) → Behind (i + 1) xs
  Behind-tail i x xs h k = ap (λ (n : ℕ). get_or all n d) (omega arith) ∙ h (suc k)

  value_if :
      (key : A → F) (t : Bool) (i j : ℕ) (x : A) (v : F)
      → get_or all i d ≡ x
      → key (get_or all j d) ≡ v
      → key (get_or all (if t then i else j) d) ≡ (if t then key x else v)
  value_if key true i j x v h e = ap key h
  value_if key false i j x v h e = e

  entry_if :
      (t : Bool) (i j : ℕ) (x : A)
      → get_or all i d ≡ x
      → get_or all (if t then i else j) d ≡ (if t then x else get_or all j d)
  entry_if true i j x h = h
  entry_if false i j x h = refl

  pub extremes-least :
      (xs : List A) (s : Extremes F) (i : ℕ)
      → Behind i xs
      → low (get_or all s.least_index d) ≡ s.least
      → get_or all (extremes fl low high part s i xs).least_index d
        ≡ pick fl.lt low (get_or all s.least_index d) xs
  unfolding extremes
  extremes-least [] s i h e = refl
  extremes-least (x ∷ xs) s i h e =
      let here = Behind-head i x xs h in
      extremes-least xs _ (i + 1) (Behind-tail i x xs h)
        (value_if low (fl.lt (low x) (s.least)) i s.least_index x s.least here e)
      ∙ ap (λ a. pick fl.lt low a xs)
          (entry_if (fl.lt (low x) (s.least)) i s.least_index x here
            ∙ ap (λ v. if fl.lt (low x) (v) then x else get_or all s.least_index d) (sym e))

  pub extremes-greatest :
      (xs : List A) (s : Extremes F) (i : ℕ)
      → Behind i xs
      → high (get_or all s.greatest_index d) ≡ s.greatest
      → get_or all (extremes fl low high part s i xs).greatest_index d
        ≡ pick (λ a b. fl.lt b a) high (get_or all s.greatest_index d) xs
  unfolding extremes
  extremes-greatest [] s i h e = refl
  extremes-greatest (x ∷ xs) s i h e =
      let here = Behind-head i x xs h in
      extremes-greatest xs _ (i + 1) (Behind-tail i x xs h)
        (value_if high (fl.lt (s.greatest) (high x)) i s.greatest_index x s.greatest here e)
      ∙ ap (λ a. pick (λ a b. fl.lt b a) high a xs)
          (entry_if (fl.lt (s.greatest) (high x)) i s.greatest_index x here
            ∙ ap (λ v. if fl.lt (v) (high x) then x else get_or all s.greatest_index d) (sym e))
