-- ===== src/BitSet/Search.antt =====
-- pkg/util/bitset/bits.go: what `NextSet` and `NextClear` find.
use harns.Prelude.{
  ℕ, ◌+◌, ◌-◌, ◌*◌, ◌/◌, ◌%◌, ◌^◌, ◌≤◌, ◌<◌, ◌≡◌, refl, sym, ap, ◌≢◌, List, [], ◌∷◌, Bool, true,
  false, inl, inr, Bool-cases, lt-or-le, arith, leb, ==_iff, leb→le, ◌∙◌, ◌==◌, not, if◌then◌else◌,
  length, length-drop, get_or, drop,
}
use harns.Prelude.Bits.{bit, bit-zero, zero_word, bit-div_two_pow, full_shift, shift-lt}
use native.Mathlib.Nat.{div-le_self}
use harns.BitSet.{
  BitSet, get, next_clear, next_set, trailing_zeros, all_bits, next_clear_from, next_set_from,
}
use harns.BitSet.Access.{IsValid, get-bit_at}
use harns.BitSet.Find.{Find, Find-later, round-clear}
use harns.BitSet.Words.{
  Fits, Fits-get_or, Fits-drop, bit_at, bit_at-head, bit_at-tail, bit_at-drop,
  trailing_zeros-TrailingZeros,
}

next_clear_from-Find :
    (len : ℕ) (ws : List ℕ) (x : ℕ)
    → Fits ws
    → len ≤ (x + length ws) * 64
    → Find 1 0 len (bit_at ws) (x * 64) (next_clear_from len ws x)
unfolding next_clear_from
next_clear_from-Find len [] x f h = (refl, λ k q. absurd (omega arith))
next_clear_from-Find len (w ∷ ws) x f h =
    round-clear len (x * 64) 64 w (bit_at (w ∷ ws)) (bit_at ws) (omega arith) f.0 f.0
      (bit_at-head w ws) (bit_at-tail w ws) (next_clear_from len ws (x + 1))
      (let e : x * 64 + 64 ≡ (x + 1) * 64 = omega arith in
        rw e (next_clear_from-Find len ws (x + 1) f.1 (omega arith)))

-- One round of `NextSet`: a word `v` of `m` bits that holds the bits of `f` from `base` on.
module _ (len base m v : ℕ) (f g : ℕ → ℕ) (fits : m ≤ 64) (below : v < 2 ^ m)
    (room : base + m ≤ len) (word : (k : ℕ) → k < m → f k ≡ bit v k)
    (later : (k : ℕ) → f (m + k) ≡ g k) (rest : ℕ × Bool)
    (rest_lem : Find 0 1 len g (base + m) rest) where
  abbrev stop_at : ℕ
  stop_at = trailing_zeros 64 v

  none-of-zero : v ≡ 0 → (k : ℕ) → k < m → base + k < len → f k ≡ 0
  none-of-zero e k h _ = word k h ∙ rw e (bit-zero k)

  stop_in_word : v ≢ 0 → stop_at < m
  stop_in_word ne = elim (lt-or-le stop_at m) [
    | inl h ↦ h
    | inr h ↦ absurd (
        ne (zero_word m v below (λ j q. (trailing_zeros-TrailingZeros 64 v).below j (omega arith))))
  ]

  found-set : v ≢ 0 → Find 0 1 len f base (base + stop_at, true)
  found-set ne =
      let z = trailing_zeros-TrailingZeros 64 v in
      let at : f (base + stop_at - base) ≡ f stop_at = ap f (omega arith) in
      (
        omega arith,
        omega (arith, stop_in_word ne),
        at ∙ word _ (stop_in_word ne) ∙ z.stop (omega (arith, stop_in_word ne)),
        λ k q. word k (omega (arith, stop_in_word ne)) ∙ z.below k (omega arith),
      )

  round-set : Find 0 1 len f base (if v == 0 then rest else (base + stop_at, true))
  round-set = elim (Bool-cases (v == 0)) [
    | inl e ↦
        rw e (Find-later 0 1 len base m f g (none-of-zero ((==_iff _ _).0 e)) later rest rest_lem)
    | inr ne ↦ rw ne (found-set (λ e. cc (ne, (==_iff v 0).1 e)))
  ]

next_set_from-Find :
    (len : ℕ) (ws : List ℕ) (x : ℕ)
    → Fits ws
    → len ≡ (x + length ws) * 64
    → Find 0 1 len (bit_at ws) (x * 64) (next_set_from ws x)
unfolding next_set_from
next_set_from-Find len [] x f h = (refl, λ k q. absurd (omega arith))
next_set_from-Find len (w ∷ ws) x f h =
    round-set len (x * 64) 64 w (bit_at (w ∷ ws)) (bit_at ws) (omega arith) f.0 (omega arith)
      (bit_at-head w ws) (bit_at-tail w ws) (next_set_from ws (x + 1))
      (let e : x * 64 + 64 ≡ (x + 1) * 64 = omega arith in
        rw e (next_set_from-Find len ws (x + 1) f.1 (omega arith)))

-- The word that `i` stands in, from the bit of `i` on.
module _ (ws : List ℕ) (fits : Fits ws) (i : ℕ) where
  abbrev first : ℕ
  first = get_or ws (i / 64) 0 / 2 ^ (i % 64)

  abbrev left : ℕ
  left = 64 - i % 64

  sixty_four : 2 ^ (i % 64 + left) ≡ 2 ^ 64
  sixty_four = ap (λ (t : ℕ). 2 ^ t) {y = 64} (omega arith)

  first-lt : first < 2 ^ left
  first-lt =
      shift-lt (i % 64) left (get_or ws (i / 64) 0) (rw sixty_four (Fits-get_or ws (i / 64) fits))

  first-lt64 : first < 2 ^ 64
  first-lt64 =
      omega (arith, Fits-get_or ws (i / 64) fits, div-le_self (get_or ws (i / 64) 0) (2 ^ (i % 64)))

  full_first : all_bits / 2 ^ (i % 64) ≡ 2 ^ left - 1
  full_first = rw sixty_four at (full_shift (i % 64) left)

  first-bits : (k : ℕ) → k < left → bit_at ws (i + k) ≡ bit first k
  unfolding bit_at
  first-bits k h =
      let e : (i + k) / 64 ≡ i / 64 = omega arith in
      let e' : (i + k) % 64 ≡ i % 64 + k = omega arith in
      rw (e, e') (sym (bit-div_two_pow (get_or ws (i / 64) 0) (i % 64) k))

  later-bits : (k : ℕ) → bit_at ws (i + (left + k)) ≡ bit_at (drop (i / 64 + 1) ws) k
  later-bits k =
      let e : i + (left + k) ≡ (i / 64 + 1) * 64 + k = omega arith in
      rw e (sym (bit_at-drop ws (i / 64 + 1) k))

  next_word : i + left ≡ (i / 64 + 1) * 64
  next_word = omega arith

module _ (b : BitSet) (fits : Fits b.set) (i : ℕ) where
  pub next_clear-Find :
      b.len ≤ length b.set * 64 → Find 1 0 b.len (λ k. bit_at b.set (i + k)) i (next_clear b i)
  unfolding next_clear
  next_clear-Find room = elim (Bool-cases (leb (length b.set) (i / 64))) [
    | inl out ↦ rw out (refl, λ k h. absurd (omega (arith, leb→le _ _ out, room)))
    | inr in_range ↦
        rw (in_range, full_first b.set fits i)
          (round-clear b.len i (left b.set fits i) (first b.set fits i) (λ k. bit_at b.set (i + k))
            (bit_at (drop (i / 64 + 1) b.set)) (omega arith) (first-lt b.set fits i)
            (first-lt64 b.set fits i) (first-bits b.set fits i) (later-bits b.set fits i)
            (next_clear_from b.len (drop (i / 64 + 1) b.set) (i / 64 + 1))
            (rw (next_word b.set fits i) (
              next_clear_from-Find b.len (drop (i / 64 + 1) b.set) (i / 64 + 1)
                (Fits-drop b.set (i / 64 + 1) fits) (rw length-drop (ground (arith, room))))))
  ]

  pub next_set-Find : Find 0 1 (length b.set * 64) (λ k. bit_at b.set (i + k)) i (next_set b i)
  unfolding next_set
  next_set-Find = elim (Bool-cases (leb (length b.set) (i / 64))) [
    | inl out ↦ rw out (refl, λ k h. absurd (omega (arith, leb→le _ _ out)))
    | inr in_range ↦ rw in_range (
        round-set (length b.set * 64) i (left b.set fits i) (first b.set fits i)
          (λ k. bit_at b.set (i + k)) (bit_at (drop (i / 64 + 1) b.set)) (omega arith)
          (first-lt b.set fits i) (ground arith) (first-bits b.set fits i) (later-bits b.set fits i)
          (next_set_from (drop (i / 64 + 1) b.set) (i / 64 + 1))
          (rw (next_word b.set fits i) (
            next_set_from-Find (length b.set * 64) (drop (i / 64 + 1) b.set) (i / 64 + 1)
              (Fits-drop b.set (i / 64 + 1) fits) (rw length-drop (ground arith)))))
  ]

-- What a search from `i` on for the indexes below `len` that `hit` says of `get`: the first of
-- them, or 0 and false where all that are left are not `hit`.
abbrev pub FirstIndex : BitSet → Bool → ℕ → ℕ × Bool → Type 0
FirstIndex b hit i (j, true) =
    (i ≤ j) × (j < b.len) × (get b j ≡ hit) × ((k : ℕ) → i ≤ k → k < j → get b k ≡ not hit)
FirstIndex b hit i (j, false) = (j ≡ 0) × ((k : ℕ) → i ≤ k → k < b.len → get b k ≡ not hit)

module _ (b : BitSet) (i : ℕ) where
  bit_from : (k : ℕ) → i ≤ k → bit_at b.set (i + (k - i)) ≡ bit_at b.set k
  bit_from k h = ap (bit_at b.set) (omega arith)

  clear-FirstIndex :
      (r : ℕ × Bool) → Find 1 0 b.len (λ k. bit_at b.set (i + k)) i r → FirstIndex b false i r
  clear-FirstIndex (j, true) f = (
    f.0,
    f.1,
    rw (get-bit_at b j f.1) (ground (arith, f.2, bit_from j f.0)),
    λ k h h'.
        rw (get-bit_at b k (omega (arith, f.1)))
          (ground (arith, f.3 (k - i) (omega arith), bit_from k h)),
  )
  clear-FirstIndex (j, false) f = (
    f.0,
    λ k h h'. rw (get-bit_at b k h') (ground (arith, f.1 (k - i) (omega arith), bit_from k h)),
  )

  set-FirstIndex :
      (v : IsValid b) (r : ℕ × Bool)
      → Find 0 1 (length b.set * 64) (λ k. bit_at b.set (i + k)) i r
      → FirstIndex b true i r
  set-FirstIndex v (j, true) f =
      let hit : bit_at b.set j ≡ 1 = sym (bit_from j f.0) ∙ f.2 in
      let within : j < b.len = elim (lt-or-le j b.len) [
        | inl h ↦ h
        | inr h ↦ absurd (omega (arith, v.tight j h, hit))
      ] in
      (
        f.0,
        within,
        rw (get-bit_at b j within) (ground (arith, hit)),
        λ k h h'.
            rw (get-bit_at b k (omega arith))
              (ground (arith, f.3 (k - i) (omega arith), bit_from k h)),
      )
  set-FirstIndex v (j, false) f = (
    f.0,
    λ k h h'.
        rw (get-bit_at b k h') (ground (arith, f.1 (k - i) (omega (arith, v.room)), bit_from k h)),
  )

-- `NextClear(i)` on a valid set is the first clear index from i on and true, if there is one below
-- the length, and 0 and false if every index from i on is set.
pub next_clear-FirstIndex : (b : BitSet) (i : ℕ) → IsValid b → FirstIndex b false i (next_clear b i)
next_clear-FirstIndex b i v =
    clear-FirstIndex b i (next_clear b i) (next_clear-Find b v.fits i v.room)

-- `NextSet(i)` on a valid set is the first set index from i on and true, if there is one, and 0 and
-- false if every index from i on is clear.
pub next_set-FirstIndex : (b : BitSet) (i : ℕ) → IsValid b → FirstIndex b true i (next_set b i)
next_set-FirstIndex b i v = set-FirstIndex b i v (next_set b i) (next_set-Find b v.fits i)
