-- ===== src/Prelude/Bits.antt =====
-- Single bits of machine words under `|`, `&`, `&^`, `1 << k` and `^`.
use Prim.Native.Nat.{
  ℕ, zero, suc, ◌+◌, ◌-◌, ◌*◌, ◌/◌, ◌%◌, ◌^◌, ◌≤◌, ◌<◌, min, max, bit_and, bit_or, digits, bitwise,
  bit_and-bitwise, bit_or-bitwise,
}
use mathlib.Core.Path.{◌≡◌, refl, ap, ◌∙◌}
use mathlib.Core.Logic.{◌≢◌}
use native.Mathlib.Nat.{le_refl, pow-suc, one-le-pow, pow-succ', div-div-eq-div-mul}
use native.Mathlib.Omega.{arith}

-- `bitwise` recurs on halves with its first operand as fuel. What is left over of the fuel does not
-- matter, so it may be read as a recursion on the lowest bit.
module _ (done : ℕ → ℕ) (op : ℕ → ℕ → ℕ) where
  digits-suc : (n x y : ℕ) → x ≤ n → digits done op (suc n) x y ≡ digits done op n x y
  digits-suc zero zero y h = refl
  digits-suc (suc n) zero y h = refl
  digits-suc zero (suc x) y h = elim h [ ]
  digits-suc (suc n) (suc x) y h = rw (digits-suc n (suc x / 2) (y / 2) (omega arith)) refl

  digits-add : (spare x y : ℕ) → digits done op (spare + x) x y ≡ digits done op x x y
  digits-add zero x y = ap (λ (n : ℕ). digits done op n x y) (omega arith)
  digits-add (suc spare) x y =
      let e : suc spare + x ≡ suc (spare + x) = omega arith in
      rw e (digits-suc (spare + x) x y (omega arith) ∙ digits-add spare x y)

  lowest_bit :
      (x y : ℕ)
      → bitwise done op (suc x) y ≡ op (suc x % 2) (y % 2) + 2 * bitwise done op (suc x / 2) (y / 2)
  lowest_bit x y =
      let half = suc x / 2 in
      let fuel : x ≡ x - half + half = omega arith in
      omega (
        arith,
        ap (λ (n : ℕ). digits done op n half (y / 2)) fuel ∙ digits-add (x - half) half (y / 2),
      )

bit_or_step : (x y : ℕ) → bit_or x y ≡ max (x % 2) (y % 2) + 2 * bit_or (x / 2) (y / 2)
bit_or_step zero y = simp bit_or-bitwise (omega arith)
bit_or_step (suc x) y = simp bit_or-bitwise (lowest_bit (λ rest. rest) max x y)

bit_and_step : (x y : ℕ) → bit_and x y ≡ min (x % 2) (y % 2) + 2 * bit_and (x / 2) (y / 2)
bit_and_step zero y = simp bit_and-bitwise (omega arith)
bit_and_step (suc x) y = simp bit_and-bitwise (lowest_bit (λ rest. 0) min x y)

-- Go's `a &^ b`: the bits of `a` that `b` does not have.
abbrev pub bit_clear : ℕ → ℕ → ℕ
bit_clear a b = a - bit_and a b

-- Bit `j` of `w`, as 0 or 1.
unfoldable pub bit : ℕ → ℕ → ℕ
bit w zero = w % 2
bit w (suc j) = bit (w / 2) j

pub bit-le-one : (w j : ℕ) → bit w j ≤ 1
unfolding bit
bit-le-one w zero = omega arith
bit-le-one w (suc j) = bit-le-one (w / 2) j

pub bit-zero : (j : ℕ) → bit 0 j ≡ 0
unfolding bit
bit-zero zero = refl
bit-zero (suc j) = bit-zero j

pub bit-bit_or : (a b j : ℕ) → bit (bit_or a b) j ≡ max (bit a j) (bit b j)
unfolding bit
bit-bit_or a b zero = omega (arith, bit_or_step a b)
bit-bit_or a b (suc j) =
    let e : bit_or a b / 2 ≡ bit_or (a / 2) (b / 2) = omega (arith, bit_or_step a b) in
    rw e (bit-bit_or (a / 2) (b / 2) j)

pub bit-bit_and : (a b j : ℕ) → bit (bit_and a b) j ≡ min (bit a j) (bit b j)
unfolding bit
bit-bit_and a b zero = omega (arith, bit_and_step a b)
bit-bit_and a b (suc j) =
    let e : bit_and a b / 2 ≡ bit_and (a / 2) (b / 2) = omega (arith, bit_and_step a b) in
    rw e (bit-bit_and (a / 2) (b / 2) j)

bit_and-le_fuel : (n a b : ℕ) → a ≤ n → bit_and a b ≤ a
bit_and-le_fuel zero a b h = let e : a ≡ 0 = omega arith in rw (e, bit_and-bitwise) (omega arith)
bit_and-le_fuel (suc n) zero b h = simp bit_and-bitwise (omega arith)
bit_and-le_fuel (suc n) (suc a) b h =
    omega (arith, bit_and_step (suc a) b, bit_and-le_fuel n (suc a / 2) (b / 2) (omega arith))

pub bit_and-le : (a b : ℕ) → bit_and a b ≤ a
bit_and-le a b = bit_and-le_fuel a a b (le_refl a)

pub bit-bit_clear : (a b j : ℕ) → bit (bit_clear a b) j ≡ bit a j - bit b j
unfolding bit
bit-bit_clear a b zero = omega (arith, bit_and_step a b, bit_and-le (a / 2) (b / 2))
bit-bit_clear a b (suc j) =
    let e : (a - bit_and a b) / 2 ≡ a / 2 - bit_and (a / 2) (b / 2) =
      omega (arith, bit_and_step a b, bit_and-le (a / 2) (b / 2)) in
    rw e (bit-bit_clear (a / 2) (b / 2) j)

two_pow_half : (k : ℕ) → (2 ^ suc k / 2 ≡ 2 ^ k) × (2 ^ suc k % 2 ≡ 0)
two_pow_half k = omega (arith, pow-suc 2 k)

-- `1 << k` has bit `k` and no other.
pub bit-two_pow_self : (k : ℕ) → bit (2 ^ k) k ≡ 1
unfolding bit
bit-two_pow_self zero = refl
bit-two_pow_self (suc k) = rw ((two_pow_half k).0) (bit-two_pow_self k)

pub bit-two_pow_ne : (k j : ℕ) → k ≢ j → bit (2 ^ k) j ≡ 0
unfolding bit
bit-two_pow_ne zero zero h = absurd (h refl)
bit-two_pow_ne zero (suc j) h = bit-zero j
bit-two_pow_ne (suc k) zero h = (two_pow_half k).1
bit-two_pow_ne (suc k) (suc j) h = rw ((two_pow_half k).0) (bit-two_pow_ne k j (λ e. h (ap suc e)))

bit_and-zero_fuel : (n a : ℕ) → a ≤ n → bit_and a 0 ≡ 0
bit_and-zero_fuel zero a h = omega (arith, bit_and-le a 0)
bit_and-zero_fuel (suc n) zero h = omega (arith, bit_and-le 0 0)
bit_and-zero_fuel (suc n) (suc a) h =
    omega (arith, bit_and_step (suc a) 0, bit_and-zero_fuel n (suc a / 2) (omega arith))

-- `w & (1 << k)` is zero exactly when bit `k` of `w` is.
pub bit_and-two_pow : (w k : ℕ) → bit_and w (2 ^ k) ≡ bit w k * 2 ^ k
unfolding bit
bit_and-two_pow w zero =
    omega (arith, bit_and_step w 1, bit_and-zero_fuel (w / 2) (w / 2) (le_refl _))
bit_and-two_pow w (suc k) =
    let (half, even) = two_pow_half k in
    let e : bit_and (w / 2) (2 ^ suc k / 2) ≡ bit (w / 2) k * 2 ^ k =
      rw half (bit_and-two_pow (w / 2) k) in
    omega
      (arith, bit_and_step w (2 ^ suc k), e, even, ap (λ (t : ℕ). bit (w / 2) k * t) (pow-suc 2 k))

-- The largest word of `k` bits has all of them.
pub bit_full : (k j : ℕ) → j < k → bit (2 ^ k - 1) j ≡ 1
unfolding bit
bit_full zero j h = elim h [ ]
bit_full (suc k) zero h = omega (arith, pow-suc 2 k, one-le-pow k 2)
bit_full (suc k) (suc j) h =
    let e : (2 ^ suc k - 1) / 2 ≡ 2 ^ k - 1 = omega (arith, pow-suc 2 k, one-le-pow k 2) in
    rw e (bit_full k j (omega arith))

pub bit-div_two_pow : (w k j : ℕ) → bit (w / 2 ^ k) j ≡ bit w (k + j)
unfolding bit
bit-div_two_pow w zero j =
    let e : w / 2 ^ 0 ≡ w = omega arith in let e' : 0 + j ≡ j = omega arith in rw (e, e')
bit-div_two_pow w (suc k) j =
    let e : w / 2 ^ suc k ≡ w / 2 / 2 ^ k = rw (div-div-eq-div-mul, pow-succ') in
    let e' : suc k + j ≡ suc (k + j) = omega arith in rw (e, e') (bit-div_two_pow (w / 2) k j)

-- `^w` on words of `k` bits.
pub bit_complement : (k w j : ℕ) → w < 2 ^ k → j < k → bit (2 ^ k - 1 - w) j ≡ 1 - bit w j
unfolding bit
bit_complement zero w j f h = elim h [ ]
bit_complement (suc k) w zero f h = omega (arith, pow-suc 2 k, one-le-pow k 2)
bit_complement (suc k) w (suc j) f h =
    let e : (2 ^ suc k - 1 - w) / 2 ≡ 2 ^ k - 1 - w / 2 =
      omega (arith, pow-suc 2 k, one-le-pow k 2) in
    rw e (bit_complement k (w / 2) j (omega (arith, pow-suc 2 k)) (omega arith))

-- A word of `k` bits that has them all is the largest one.
pub full_word : (k w : ℕ) → w < 2 ^ k → ((j : ℕ) → j < k → bit w j ≡ 1) → w ≡ 2 ^ k - 1
unfolding bit
full_word zero w f h = omega arith
full_word (suc k) w f h =
    let e : w / 2 ≡ 2 ^ k - 1 =
      full_word k (w / 2) (omega (arith, pow-suc 2 k)) (λ j q. h (suc j) (omega arith)) in
    omega (arith, e, h 0 (omega arith), pow-suc 2 k, one-le-pow k 2)

pub full_shift : (s k : ℕ) → (2 ^ (s + k) - 1) / 2 ^ s ≡ 2 ^ k - 1
full_shift zero k = let e : 0 + k ≡ k = omega arith in rw e (omega arith)
full_shift (suc s) k =
    let e : suc s + k ≡ suc (s + k) = omega arith in
    let half : (2 ^ suc (s + k) - 1) / 2 ≡ 2 ^ (s + k) - 1 =
      omega (arith, pow-suc 2 (s + k), one-le-pow (s + k) 2) in
    rw (e, pow-succ' 2 s, ← div-div-eq-div-mul, half) (full_shift s k)

pub shift-lt : (s k w : ℕ) → w < 2 ^ (s + k) → w / 2 ^ s < 2 ^ k
shift-lt zero k w h =
    let e : 2 ^ (0 + k) ≡ 2 ^ k = ap (λ (t : ℕ). 2 ^ t) (omega arith) in
    let h' : w < 2 ^ k = rw e at h in omega arith
shift-lt (suc s) k w h =
    let e : 2 ^ (suc s + k) ≡ 2 ^ suc (s + k) = ap (λ (t : ℕ). 2 ^ t) (omega arith) in
    let half : w / 2 < 2 ^ (s + k) = omega (arith, e, pow-suc 2 (s + k)) in
    rw (pow-succ' 2 s, ← div-div-eq-div-mul) (shift-lt s k (w / 2) half)

pub zero_word : (k w : ℕ) → w < 2 ^ k → ((j : ℕ) → j < k → bit w j ≡ 0) → w ≡ 0
unfolding bit
zero_word zero w f h = omega arith
zero_word (suc k) w f h = omega (
  arith,
  zero_word k (w / 2) (omega (arith, pow-suc 2 k)) (λ j q. h (suc j) (omega arith)),
  h 0 (omega arith),
)

pub bit_or-lt : (k a b : ℕ) → a < 2 ^ k → b < 2 ^ k → bit_or a b < 2 ^ k
bit_or-lt zero a b f g =
    let e : a ≡ 0 = omega arith in let e' : b ≡ 0 = omega arith in rw (e, e') (omega arith)
bit_or-lt (suc k) a b f g = omega (
  arith,
  bit_or_step a b,
  bit_or-lt k (a / 2) (b / 2) (omega (arith, pow-suc 2 k)) (omega (arith, pow-suc 2 k)),
  pow-suc 2 k,
)

pub two_pow_mono : (j k : ℕ) → j < k → 2 ^ j < 2 ^ k
two_pow_mono j zero h = elim h [ ]
two_pow_mono zero (suc k) h = omega (arith, pow-suc 2 k, one-le-pow k 2)
two_pow_mono (suc j) (suc k) h =
    omega (arith, pow-suc 2 j, pow-suc 2 k, two_pow_mono j k (omega arith))

pub zero-bit_and : (b : ℕ) → bit_and 0 b ≡ 0
zero-bit_and b = omega (arith, bit_and-le 0 b)
