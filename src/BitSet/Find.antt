-- ===== src/BitSet/Find.antt =====
-- pkg/util/bitset/bits.go: one round of a search, on one word.
use harns.Prelude.{
  ℕ, suc, ◌+◌, ◌-◌, ◌^◌, ◌≤◌, ◌<◌, ◌≡◌, ap, fun_ext, ◌≢◌, Bool, true, false, inl, inr, Bool-cases,
  lt-or-le, arith, ltb, ==_iff, ltb→lt, ◌∙◌, ◌==◌, not, ◌&&◌, if◌then◌else◌,
}
use harns.Prelude.Bits.{bit, bit-le-one, bit_complement, bit_full, full_word}
use harns.BitSet.{trailing_zeros, all_bits}
use harns.BitSet.Words.{trailing_zeros-TrailingZeros}

-- The first clear bit of a word `v` of `k` bits, as the count of trailing zeros of `^v` gives it.
pub record FirstClear (k v t : ℕ) : Type 0 where
  pub below : (j : ℕ) → j < t → j < k → bit v j ≡ 1
  pub stop : v ≢ 2 ^ k - 1 → (t < k) × (bit v t ≡ 0)
  pub full : v ≡ 2 ^ k - 1 → (j : ℕ) → j < k → bit v j ≡ 1

module _ (k v : ℕ) (small : k ≤ 64) (fits : v < 2 ^ k) (fits64 : v < 2 ^ 64) where
  abbrev zeros_of : ℕ
  zeros_of = trailing_zeros 64 (all_bits - v)

  ones_below : (j : ℕ) → j < zeros_of → j < k → bit v j ≡ 1
  ones_below j h h' = omega (
    arith,
    bit_complement 64 v j fits64 (omega arith),
    (trailing_zeros-TrailingZeros 64 (all_bits - v)).below j h,
    bit-le-one v j,
  )

  clear_at_stop : v ≢ 2 ^ k - 1 → (zeros_of < k) × (bit v zeros_of ≡ 0)
  clear_at_stop ne = elim (lt-or-le zeros_of k) [
    | inl h ↦ (
      h,
      omega (
        arith,
        bit_complement 64 v zeros_of fits64 (omega arith),
        (trailing_zeros-TrailingZeros 64 (all_bits - v)).stop (omega arith),
        bit-le-one v zeros_of,
      ),
    )
    | inr h ↦ absurd (ne (full_word k v fits (λ j q. ones_below j (omega arith) q)))
  ]

  FirstClear-word : FirstClear k v (trailing_zeros 64 (all_bits - v))
  FirstClear-word = record {
    below = ones_below;
    stop = clear_at_stop;
    full = λ e j h. rw e (bit_full k j h);
  }

-- What a search for a bit `hit` from `base` on says, where the other bits are `skip`, for the bits
-- `f` counted from `base`.
abbrev pub Find : ℕ → ℕ → ℕ → (ℕ → ℕ) → ℕ → ℕ × Bool → Type 0
Find skip hit len f base (j, true) =
    (base ≤ j) × (j < len) × (f (j - base) ≡ hit) × ((k : ℕ) → k < j - base → f k ≡ skip)
Find skip hit len f base (j, false) = (j ≡ 0) × ((k : ℕ) → base + k < len → f k ≡ skip)

-- A search may start `m` bits later if those before are `skip` as far as they are in range.
module _ (skip hit len base m : ℕ) (f g : ℕ → ℕ)
    (skipped : (k : ℕ) → k < m → base + k < len → f k ≡ skip)
    (later : (k : ℕ) → f (m + k) ≡ g k) where
  skipped-before :
      (n : ℕ) → base + n ≤ len → ((k : ℕ) → m + k < n → g k ≡ skip) → (k : ℕ) → k < n → f k ≡ skip
  skipped-before n fits h k q = elim (lt-or-le k m) [
    | inl p ↦ skipped k p (omega arith)
    | inr p ↦
        let e : f k ≡ f (m + (k - m)) = ap f (omega arith) in
        e ∙ later (k - m) ∙ h (k - m) (omega arith)
  ]

  pub Find-later : (r : ℕ × Bool) → Find skip hit len g (base + m) r → Find skip hit len f base r
  Find-later (j, true) c =
      let e : f (j - base) ≡ f (m + (j - (base + m))) = ap f (omega (arith, c.0)) in
      (
        omega (arith, c.0),
        c.1,
        e ∙ later (j - (base + m)) ∙ c.2,
        skipped-before (j - base) (omega (arith, c.0, c.1)) (λ k h. c.3 k (omega arith)),
      )
  Find-later (j, false) c = (
    c.0,
    λ k h. skipped-before (suc k) (omega arith) (λ k' h'. c.1 k' (omega arith)) k (omega arith),
  )

-- A search that starts `m` bits later, at the same base.
pub Find-from :
    (skip hit len base : ℕ) (f g : ℕ → ℕ) (r : ℕ × Bool)
    → ((k : ℕ) → f k ≡ g k)
    → Find skip hit len g base r
    → Find skip hit len f base r
Find-from skip hit len base f g r e c = rw (fun_ext e) c

-- One round: a word `v` of `m` bits that holds the bits of `f` from `base` on.
module _ (len base m v : ℕ) (f g : ℕ → ℕ) (fits : m ≤ 64) (below : v < 2 ^ m) (below64 : v < 2 ^ 64)
    (word : (k : ℕ) → k < m → f k ≡ bit v k) (later : (k : ℕ) → f (m + k) ≡ g k) (rest : ℕ × Bool)
    (rest_lem : Find 1 0 len g (base + m) rest) where
  abbrev index : ℕ
  index = base + trailing_zeros 64 (all_bits - v)

  ones-of-full : v ≡ 2 ^ m - 1 → (k : ℕ) → k < m → base + k < len → f k ≡ 1
  ones-of-full e k h _ = word k h ∙ (FirstClear-word m v fits below below64).full e k h

  ones-of-late : len ≤ index → (k : ℕ) → k < m → base + k < len → f k ≡ 1
  ones-of-late e k h h' =
      word k h ∙ (FirstClear-word m v fits below below64).below k (omega arith) h

  found : v ≢ 2 ^ m - 1 → index < len → Find 1 0 len f base (index, true)
  found ne h =
      let c = FirstClear-word m v fits below below64 in
      let at : f (index - base) ≡ f (trailing_zeros 64 (all_bits - v)) = ap f (omega arith) in
      (
        omega arith,
        h,
        at ∙ word _ (c.stop ne).0 ∙ (c.stop ne).1,
        λ k q.
            word k (omega (arith, (c.stop ne).0))
            ∙ c.below k (omega arith) (omega (arith, (c.stop ne).0)),
      )

  pub round-clear :
      Find 1 0 len f base (if not (v == 2 ^ m - 1) && ltb index len then (index, true) else rest)
  round-clear = elim (Bool-cases (v == 2 ^ m - 1)) [
    | inl e ↦
        rw e (Find-later 1 0 len base m f g (ones-of-full ((==_iff _ _).0 e)) later rest rest_lem)
    | inr ne ↦ elim (Bool-cases (ltb index len)) [
      | inl h ↦ rw (ne, h) (found (λ e. cc (ne, (==_iff v (2 ^ m - 1)).1 e)) (ltb→lt _ _ h))
      | inr h ↦
          rw (ne, h)
            (Find-later 1 0 len base m f g (ones-of-late (ground arith)) later rest rest_lem)
    ]
  ]
