-- ===== src/Thing/Sorter.antt =====
-- pkg/model/thing/filter.go: `sorter.less` and `sorter.Insert`, the same for things and thing types.
use mathlib.Core.List.{Permᴰ}
use mathlib.Core.List.Permᴰ
use harns.Prelude.{
  ℕ, zero, suc, ◌+◌, ◌/◌, ◌≤◌, ◌<◌, ◌≡◌, refl, ap, inl, inr, arith, Bool, true, false, none, some,
  List, [], ◌∷◌, ◌++◌, length, Bool-cases, if◌then◌else◌, ltb, get_elem?, take, drop,
}

-- `sort.Search(n, f)` on the indices from `i` up to `j`; `j - i` rounds are enough.
unfoldable pub sort_search : ℕ → (ℕ → Bool) → ℕ → ℕ → ℕ
sort_search zero f i j = i
sort_search (suc n) f i j =
    let h = (i + j) / 2 in
    let upper = sort_search n f (suc h) j in
    let lower = sort_search n f i h in if ltb i j then (if f h then lower else upper) else i

module _ {A : Type 0} where
  -- `less` with the comparisons of a sorter. It has one at least.
  abbrev pub less : List (A → A → Bool) → A → A → Bool
  less [] p q = false
  less (l ∷ []) p q = l p q
  less (l ∷ l' ∷ ls) p q =
      let rest = less (l' ∷ ls) p q in if l p q then true else if l q p then false else rest

  -- The question that `Insert` asks of an index; `sort.Search` asks it of those in the list only.
  abbrev pub is_behind : List (A → A → Bool) → List A → A → ℕ → Bool
  is_behind ls ts t i = elim (get_elem? ts i) [ none ↦ true | some x ↦ less ls x t ]

  -- `Insert`
  unfoldable pub insert : List (A → A → Bool) → List A → A → List A
  unfolding sort_search
  insert ls ts t =
      let i = sort_search (length ts) (is_behind ls ts t) 0 (length ts) in
      take i ts ++ t ∷ drop i ts

-- A true answer stays true at the indices above.
IsMonotone : (ℕ → Bool) → Type 0
IsMonotone f = (a b : ℕ) → a ≤ b → f a ≡ true → f b ≡ true

-- Where a monotone question starts to be answered with true.
IsStart : (ℕ → Bool) → ℕ → Type 0
IsStart f r = ((k : ℕ) → k < r → f k ≡ false) × (f r ≡ true)

sort_search-IsStart :
    (n : ℕ) (f : ℕ → Bool) (i j : ℕ)
    → IsMonotone f
    → i ≤ j
    → j ≤ i + n
    → ((k : ℕ) → k < i → f k ≡ false)
    → f j ≡ true
    → IsStart f (sort_search n f i j)
unfolding sort_search IsStart IsMonotone
sort_search-IsStart zero f i j mono h g below above =
    (below, let e : i ≡ j = omega arith in rw e above)
sort_search-IsStart (suc n) f i j mono h g below above = elim (Bool-cases (ltb i j)) [
  | inl more ↦
      let m = (i + j) / 2 in
      let between : (i ≤ m) × (m < j) = ground arith in
      elim (Bool-cases (f m)) [
        | inl q ↦
            rw (more, q)
              (sort_search-IsStart n f i m mono (between.0) (omega (arith, between)) below q)
        | inr q ↦
            let below' : (k : ℕ) → k < suc m → f k ≡ false = λ k less. elim (Bool-cases (f k)) [
              | inl p ↦ let r : f m ≡ true = mono k m (omega arith) p in absurd (ground arith)
              | inr p ↦ p
            ] in
            rw (more, q)
              (sort_search-IsStart n f (suc m) j mono (omega (arith, between))
                (omega (arith, between)) below' above)
      ]
  | inr shut ↦ let e : i ≡ j = ground arith in rw shut (below, rw e above)
]

-- The order by the time of the last change, the latest first.
module _ {A : Type 0} (time : A → ℕ) where
  abbrev pub by_time : A → A → Bool
  by_time p q = ltb (time p) (time q)

  -- Descending: no element is later than the ones before it.
  pub data IsDescending : List A → Type 0 where
    nil : IsDescending []
    one : {x : A} → IsDescending (x ∷ [])
    cons :
        {x y : A} {xs : List A}
        → time y ≤ time x
        → IsDescending (y ∷ xs)
        → IsDescending (x ∷ y ∷ xs)

  rest_of : {x : A} {xs : List A} → IsDescending (x ∷ xs) → IsDescending xs
  rest_of one = nil
  rest_of (cons o d) = d

  -- The insertion that goes through the list: before the first element that is older.
  unfoldable pub linear_insert : List A → A → List A
  linear_insert [] t = t ∷ []
  linear_insert (x ∷ xs) t =
      let rest = linear_insert xs t in if by_time x t then t ∷ x ∷ xs else x ∷ rest

  earlier-by_time : (x t : A) → by_time x t ≡ false → time t ≤ time x
  earlier-by_time x t h = ground arith

  is_behind-IsMonotone :
      (ts : List A) (t : A) → IsDescending ts → IsMonotone (is_behind (by_time ∷ []) ts t)
  unfolding IsMonotone
  is_behind-IsMonotone [] t d a b h e = refl
  is_behind-IsMonotone (x ∷ []) t d zero zero h e = e
  is_behind-IsMonotone (x ∷ []) t d a (suc b) h e = refl
  is_behind-IsMonotone (x ∷ []) t d (suc a) zero h e = absurd (omega arith)
  is_behind-IsMonotone (x ∷ y ∷ xs) t (cons o d) zero zero h e = e
  is_behind-IsMonotone (x ∷ y ∷ xs) t (cons o d) (suc a) zero h e = absurd (omega arith)
  is_behind-IsMonotone (x ∷ y ∷ xs) t (cons o d) zero (suc b) h e =
      let second : by_time y t ≡ true = ground arith in
      is_behind-IsMonotone (y ∷ xs) t d zero b (omega arith) second
  is_behind-IsMonotone (x ∷ y ∷ xs) t (cons o d) (suc a) (suc b) h e =
      is_behind-IsMonotone (y ∷ xs) t d a b (omega arith) e

  -- A list that is cut where the older elements start, with the new one between.
  linear_insert-IsStart :
      (ts : List A) (t : A) (r : ℕ)
      → IsStart (is_behind (by_time ∷ []) ts t) r
      → take r ts ++ t ∷ drop r ts ≡ linear_insert ts t
  unfolding IsStart linear_insert
  linear_insert-IsStart [] t zero s = refl
  linear_insert-IsStart [] t (suc r) s = refl
  linear_insert-IsStart (x ∷ xs) t zero (below, here) =
      let e : by_time x t ≡ true = here in rw e refl
  linear_insert-IsStart (x ∷ xs) t (suc r) (below, here) =
      let e : by_time x t ≡ false = below 0 (omega arith) in
      rw e
        (ap (λ l. x ∷ l) (linear_insert-IsStart xs t r (λ k h. below (suc k) (omega arith), here)))

  is_behind-length :
      (ls : List (A → A → Bool)) (ts : List A) (t : A) → is_behind ls ts t (length ts) ≡ true
  is_behind-length ls [] t = refl
  is_behind-length ls (x ∷ xs) t = is_behind-length ls xs t

  -- On a list that is descending in time, `Insert` with its binary search puts the element where the
  -- insertion that goes through the list puts it: before the first element that is older.
  pub insert-linear_insert :
      (ts : List A) (t : A) → IsDescending ts → insert (by_time ∷ []) ts t ≡ linear_insert ts t
  unfolding insert
  insert-linear_insert ts t d =
      let f = is_behind (by_time ∷ []) ts t in
      linear_insert-IsStart ts t (sort_search (length ts) f 0 (length ts)) (
        sort_search-IsStart (length ts) f 0 (length ts) (is_behind-IsMonotone ts t d) (omega arith)
          (omega arith) (λ k h. absurd (omega arith)) (is_behind-length (by_time ∷ []) ts t))

  linear_insert-cons :
      (x t : A) (xs : List A)
      → time t ≤ time x
      → IsDescending (x ∷ xs)
      → IsDescending (linear_insert xs t)
      → IsDescending (x ∷ linear_insert xs t)
  unfolding linear_insert
  linear_insert-cons x t [] h d r = cons h r
  linear_insert-cons x t (y ∷ xs) h (cons o d) r = elim (Bool-cases (by_time y t)) [
    | inl q ↦ rw q (cons h (rw q at r))
    | inr q ↦ rw q (cons o (rw q at r))
  ]

  pub linear_insert-IsDescending :
      (ts : List A) (t : A) → IsDescending ts → IsDescending (linear_insert ts t)
  unfolding linear_insert
  linear_insert-IsDescending [] t d = one
  linear_insert-IsDescending (x ∷ xs) t d = elim (Bool-cases (by_time x t)) [
    | inl q ↦ rw q (cons (ground arith) d)
    | inr q ↦ rw q (
        linear_insert-cons x t xs (earlier-by_time x t q) d
          (linear_insert-IsDescending xs t (rest_of d)))
  ]

  pub linear_insert-Perm : (ts : List A) (t : A) → Permᴰ (linear_insert ts t) (t ∷ ts)
  unfolding linear_insert
  linear_insert-Perm [] t = Permᴰ.refl (t ∷ [])
  linear_insert-Perm (x ∷ xs) t = elim (Bool-cases (by_time x t)) [
    | inl q ↦ rw q (Permᴰ.refl (t ∷ x ∷ xs))
    | inr q ↦ rw q (Permᴰ.trans (Permᴰ.cons refl (linear_insert-Perm xs t)) (Permᴰ.swap refl refl))
  ]
