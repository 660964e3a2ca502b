-- ===== src/BitSet/Words.antt =====
-- Bits of a list of 64-bit words, by their position from the first word on.
use harns.Prelude.{
  ℕ, zero, suc, ◌+◌, ◌*◌, ◌/◌, ◌%◌, ◌^◌, ◌≤◌, ◌<◌, ◌≡◌, refl, List, [], ◌∷◌, inl, inr, Bool-cases,
  arith, ◌==◌, get_or, drop, set as set_elem,
}
use harns.Prelude.Bits.{bit, bit-zero}
use harns.BitSet.{trailing_zeros}

-- Every word is below 2 ^ 64.
abbrev pub Fits : List ℕ → Type 0
Fits [] = Unit
Fits (w ∷ ws) = (w < 2 ^ 64) × Fits ws

unfoldable pub bit_at : List ℕ → ℕ → ℕ
bit_at ws k = bit (get_or ws (k / 64) 0) (k % 64)

pub bit_at-nil : (k : ℕ) → bit_at [] k ≡ 0
unfolding bit_at
bit_at-nil k = bit-zero (k % 64)

pub bit_at-head : (w : ℕ) (ws : List ℕ) (k : ℕ) → k < 64 → bit_at (w ∷ ws) k ≡ bit w k
unfolding bit_at
bit_at-head w ws k h =
    let e : k / 64 ≡ 0 = omega arith in let e' : k % 64 ≡ k = omega arith in rw (e, e')

pub bit_at-tail : (w : ℕ) (ws : List ℕ) (k : ℕ) → bit_at (w ∷ ws) (64 + k) ≡ bit_at ws k
unfolding bit_at
bit_at-tail w ws k =
    let e : (64 + k) / 64 ≡ suc (k / 64) = omega arith in
    let e' : (64 + k) % 64 ≡ k % 64 = omega arith in rw (e, e')

pub get_or-drop : (ws : List ℕ) (x y : ℕ) → get_or (drop x ws) y 0 ≡ get_or ws (x + y) 0
get_or-drop ws zero y = let e : 0 + y ≡ y = omega arith in rw e
get_or-drop [] (suc x) y = refl
get_or-drop (w ∷ ws) (suc x) y =
    let e : suc x + y ≡ suc (x + y) = omega arith in rw e (get_or-drop ws x y)

pub bit_at-drop : (ws : List ℕ) (x k : ℕ) → bit_at (drop x ws) k ≡ bit_at ws (x * 64 + k)
unfolding bit_at
bit_at-drop ws x k =
    let e : (x * 64 + k) / 64 ≡ x + k / 64 = omega arith in
    let e' : (x * 64 + k) % 64 ≡ k % 64 = omega arith in rw (e, e', get_or-drop ws x (k / 64))

pub Fits-get_or : (ws : List ℕ) (x : ℕ) → Fits ws → get_or ws x 0 < 2 ^ 64
Fits-get_or [] x f = omega arith
Fits-get_or (w ∷ ws) zero f = f.0
Fits-get_or (w ∷ ws) (suc x) f = Fits-get_or ws x f.1

pub Fits-drop : (ws : List ℕ) (x : ℕ) → Fits ws → Fits (drop x ws)
Fits-drop ws zero f = f
Fits-drop [] (suc x) f = f
Fits-drop (w ∷ ws) (suc x) f = Fits-drop ws x f.1

pub Fits-set : (ws : List ℕ) (x v : ℕ) → v < 2 ^ 64 → Fits ws → Fits (set_elem ws x v)
Fits-set [] x v h f = f
Fits-set (w ∷ ws) zero v h f = (h, f.1)
Fits-set (w ∷ ws) (suc x) v h f = (f.0, Fits-set ws x v h f.1)

-- What the count of trailing zeros says of the bits.
pub record TrailingZeros (n w t : ℕ) : Type 0 where
  pub within : t ≤ n
  pub below : (j : ℕ) → j < t → bit w j ≡ 0
  pub stop : t < n → bit w t ≡ 1

TrailingZeros-even :
    (n w t : ℕ) → w % 2 ≡ 0 → TrailingZeros n (w / 2) t → TrailingZeros (suc n) w (suc t)
unfolding bit
TrailingZeros-even n w t even ih = record {
  within = omega (arith, ih.within);
  below = lower;
  stop = λ h. ih.stop (omega arith);
}
  where
    lower : (j : ℕ) → j < suc t → bit w j ≡ 0
    lower zero h = even
    lower (suc j) h = ih.below j (omega arith)

TrailingZeros-odd : (n w : ℕ) → w % 2 ≡ 1 → TrailingZeros (suc n) w 0
unfolding bit
TrailingZeros-odd n w odd = record {
  within = omega arith;
  below = λ j h. elim h [ ];
  stop = λ h. odd;
}

pub trailing_zeros-TrailingZeros : (n w : ℕ) → TrailingZeros n w (trailing_zeros n w)
unfolding trailing_zeros
trailing_zeros-TrailingZeros zero w = record {
  within = omega arith;
  below = λ j h. elim h [ ];
  stop = λ h. elim h [ ];
}
trailing_zeros-TrailingZeros (suc n) w =
    let ih = trailing_zeros-TrailingZeros n (w / 2) in
    elim (Bool-cases (w % 2 == 0)) [
      | inl even ↦ rw even (TrailingZeros-even n w (trailing_zeros n (w / 2)) (ground arith) ih)
      | inr odd ↦ rw odd (TrailingZeros-odd n w (ground arith))
    ]
