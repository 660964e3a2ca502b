-- ===== src/BitSet/Access.antt =====
-- `Get` after `Set`, `Clear` and `Clean`, and the invariant that they keep.
use harns.Prelude.{
  ℕ, zero, suc, ◌+◌, ◌-◌, ◌*◌, ◌/◌, ◌%◌, ◌^◌, ◌≤◌, ◌<◌, ◌≡◌, refl, ap, ◌≢◌, ◌∙◌, List, [], ◌∷◌,
  true, false, inl, inr, Bool-cases, lt-or-le, arith, ltb, leb, lt_of_not-leb, ◌==◌, ◌&&◌,
  if◌then◌else◌, length, get_or, set as set_elem, get_or-set_self, get_or-set_ne, length-set,
  bit_or, some, replicate, length-replicate, get_or-replicate,
}
use harns.Prelude.Bits.{
  bit, bit-zero, bit-le-one, bit-bit_or, bit-bit_clear, bit-two_pow_self, bit-two_pow_ne,
  bit_and-two_pow, bit_clear, bit_or-lt, two_pow_mono, zero-bit_and,
}
use native.Mathlib.Decide.{ℕ_discrete}
use native.Mathlib.Nat.{one-le-pow}
use harns.BitSet.{zeros, BitSet, new, get, set_bit, clear, clean}
use harns.BitSet.Words.{Fits, Fits-get_or, Fits-set, bit_at}

-- A bit set as `New` and the operations keep it: words of 64 bits, as many as the length needs,
-- and no bit from the length on.
pub record IsValid (b : BitSet) : Type 0 where
  pub fits : Fits b.set
  pub room : b.len ≤ length b.set * 64
  pub tight : (k : ℕ) → b.len ≤ k → bit_at b.set k ≡ 0

-- Writing the word of position `i` changes the bits of that word alone.
bit_at-set_ne :
    (ws : List ℕ) (i j v : ℕ) → i / 64 ≢ j / 64 → bit_at (set_elem ws (i / 64) v) j ≡ bit_at ws j
unfolding bit_at
bit_at-set_ne ws i j v h = rw (get_or-set_ne ws (i / 64) (j / 64) v 0 h)

bit_at-set_eq :
    (ws : List ℕ) (i j v : ℕ)
    → i < length ws * 64
    → i / 64 ≡ j / 64
    → bit_at (set_elem ws (i / 64) v) j ≡ bit v (j % 64)
unfolding bit_at
bit_at-set_eq ws i j v h e = rw (← e, get_or-set_self ws (i / 64) v 0 (omega arith))

-- Bit `j` of `1 << (i & 63)`, where both stand in one word.
bit-mask : (i j : ℕ) → i / 64 ≡ j / 64 → bit (2 ^ (i % 64)) (j % 64) ≡ (if i == j then 1 else 0)
bit-mask i j eq = elim (ℕ_discrete (i % 64) (j % 64)) [
  | yes e ↦
      let one : bit (2 ^ (i % 64)) (j % 64) ≡ 1 = rw e (bit-two_pow_self (j % 64)) in
      ground (arith, one)
  | no ne ↦ ground (arith, bit-two_pow_ne (i % 64) (j % 64) ne)
]

bit_at-word :
    (ws : List ℕ) (i j : ℕ) → i / 64 ≡ j / 64 → bit (get_or ws (i / 64) 0) (j % 64) ≡ bit_at ws j
unfolding bit_at
bit_at-word ws i j eq = rw eq

module _ (ws : List ℕ) (i j : ℕ) (h : i < length ws * 64) where
  abbrev word_of : ℕ
  word_of = get_or ws (i / 64) 0

  abbrev mask : ℕ
  mask = 2 ^ (i % 64)

  bit_at-or :
      bit_at (set_elem ws (i / 64) (bit_or word_of mask)) j ≡ (if i == j then 1 else bit_at ws j)
  bit_at-or = elim (ℕ_discrete (i / 64) (j / 64)) [
    | no ne ↦ ground (arith, bit_at-set_ne ws i j (bit_or word_of mask) ne)
    | yes eq ↦
        bit_at-set_eq ws i j _ h eq
        ∙ bit-bit_or word_of mask (j % 64)
        ∙ ground (arith, bit-mask i j eq, bit_at-word ws i j eq, bit-le-one word_of (j % 64))
  ]

  bit_at-clear :
      bit_at (set_elem ws (i / 64) (bit_clear word_of mask)) j ≡ (if i == j then 0 else bit_at ws j)
  bit_at-clear = elim (ℕ_discrete (i / 64) (j / 64)) [
    | no ne ↦ ground (arith, bit_at-set_ne ws i j (bit_clear word_of mask) ne)
    | yes eq ↦
        bit_at-set_eq ws i j _ h eq
        ∙ bit-bit_clear word_of mask (j % 64)
        ∙ ground (arith, bit-mask i j eq, bit_at-word ws i j eq, bit-le-one word_of (j % 64))
  ]

pub get-bit_at : (b : BitSet) (i : ℕ) → i < b.len → get b i ≡ (bit_at b.set i == 1)
unfolding get bit_at
get-bit_at b i h = ground (
  arith,
  bit_and-two_pow (get_or b.set (i / 64) 0) (i % 64),
  bit-le-one (get_or b.set (i / 64) 0) (i % 64),
  one-le-pow (i % 64) 2,
)

mask-lt : (i : ℕ) → 2 ^ (i % 64) < 2 ^ 64
mask-lt i = two_pow_mono (i % 64) 64 (omega arith)

pub get_over : (b : BitSet) (i : ℕ) → b.len ≤ i → get b i ≡ false
unfolding get
get_over b i h = ground arith

Fits-replicate : (n : ℕ) → Fits (replicate n 0)
Fits-replicate zero = tt
Fits-replicate (suc n) = (omega arith, Fits-replicate n)

bit_at-replicate : (n k : ℕ) → bit_at (replicate n 0) k ≡ 0
unfolding bit_at
bit_at-replicate n k = rw get_or-replicate (bit-zero (k % 64))

-- `New(n)` makes a valid set of length n for every n but 0, with no index in it.
pub new_lem :
    (n : ℕ)
    → 0 < n
    → (b : BitSet) × (new n ≡ some b) × IsValid b × (b.len ≡ n) × ((i : ℕ) → get b i ≡ false)
unfolding new
new_lem n h = (
  made,
  ground arith,
  made-IsValid,
  refl,
  λ i. elim (lt-or-le i n) [
    | inl within ↦ rw (get-bit_at made i within, bit_at-replicate ((n - 1) / 64 + 1) i)
    | inr out ↦ get_over made i out
  ],
)
  where
    made : BitSet
    made = record { len = n; set = replicate ((n - 1) / 64 + 1) 0 }

    made-IsValid : IsValid made
    made-IsValid = record {
      fits = Fits-replicate ((n - 1) / 64 + 1);
      room = rw length-replicate (omega arith);
      tight = λ k q. bit_at-replicate ((n - 1) / 64 + 1) k;
    }

-- The bits after `Set` and after `Clear`; the length stays.
module _ (b : BitSet) (i : ℕ) (v : IsValid b) where
  pub len-set_bit : (set_bit b i).len ≡ b.len
  unfolding set_bit
  len-set_bit = ground arith

  pub len-clear : (clear b i).len ≡ b.len
  unfolding clear
  len-clear = ground arith

  in_words : leb b.len i ≡ false → i < length b.set * 64
  in_words h = omega (arith, lt_of_not-leb _ _ h, v.room)

  bits-set_bit :
      (j : ℕ)
      → bit_at (set_bit b i).set j
        ≡ (if leb b.len i then bit_at b.set j else if i == j then 1 else bit_at b.set j)
  unfolding set_bit
  bits-set_bit j = elim (Bool-cases (leb b.len i)) [
    | inl out ↦ rw out
    | inr within ↦ rw within (bit_at-or b.set i j (in_words within))
  ]

  bits-clear :
      (j : ℕ)
      → bit_at (clear b i).set j
        ≡ (if leb b.len i then bit_at b.set j else if i == j then 0 else bit_at b.set j)
  unfolding clear
  bits-clear j = elim (Bool-cases (leb b.len i)) [
    | inl out ↦ rw out
    | inr within ↦ rw within (bit_at-clear b.set i j (in_words within))
  ]

  Fits-set_bit : Fits (set_bit b i).set
  unfolding set_bit
  Fits-set_bit = elim (Bool-cases (leb b.len i)) [
    | inl out ↦ rw out v.fits
    | inr within ↦ rw within (
        Fits-set b.set (i / 64) _ (bit_or-lt 64 _ _ (Fits-get_or b.set (i / 64) v.fits) (mask-lt i))
          v.fits)
  ]

  Fits-clear : Fits (clear b i).set
  unfolding clear
  Fits-clear = elim (Bool-cases (leb b.len i)) [
    | inl out ↦ rw out v.fits
    | inr within ↦
        rw within
          (Fits-set b.set (i / 64) _ (omega (arith, Fits-get_or b.set (i / 64) v.fits)) v.fits)
  ]

  length-set_bit : length (set_bit b i).set ≡ length b.set
  unfolding set_bit
  length-set_bit =
      ground (arith, length-set b.set (i / 64) (bit_or (get_or b.set (i / 64) 0) (2 ^ (i % 64))))

  length-clear : length (clear b i).set ≡ length b.set
  unfolding clear
  length-clear =
      ground (arith, length-set b.set (i / 64) (bit_clear (get_or b.set (i / 64) 0) (2 ^ (i % 64))))

  -- `Set` keeps the invariant: words of 64 bits, as many as the length needs, and no bit from the
  -- length on.
  pub set_bit-IsValid : IsValid (set_bit b i)
  set_bit-IsValid = record {
    fits = Fits-set_bit;
    room = rw (len-set_bit, length-set_bit) v.room;
    tight = λ k h. ground (arith, bits-set_bit k, v.tight k, len-set_bit);
  }

  -- `Clear` keeps the invariant: words of 64 bits, as many as the length needs, and no bit from
  -- the length on.
  pub clear-IsValid : IsValid (clear b i)
  clear-IsValid = record {
    fits = Fits-clear;
    room = rw (len-clear, length-clear) v.room;
    tight = λ k h. ground (arith, bits-clear k, v.tight k, len-clear);
  }

-- On a valid set, after `Set(i)` index i is set, if it is in range, and every other is as before.
pub get-set_bit :
    (b : BitSet) (i j : ℕ)
    → IsValid b
    → get (set_bit b i) j ≡ (if i == j && ltb j b.len then true else get b j)
get-set_bit b i j v = elim (lt-or-le j b.len) [
  | inl h ↦
      rw (get-bit_at (set_bit b i) j (omega (arith, len-set_bit b i v)), get-bit_at b j h)
        (ground (arith, bits-set_bit b i v j))
  | inr h ↦
      rw (get_over (set_bit b i) j (omega (arith, len-set_bit b i v)), get_over b j h)
        (ground arith)
]

-- On a valid set, after `Clear(i)` index i is clear, and every other is as before.
pub get-clear :
    (b : BitSet) (i j : ℕ) → IsValid b → get (clear b i) j ≡ (if i == j then false else get b j)
get-clear b i j v = elim (lt-or-le j b.len) [
  | inl h ↦
      rw (get-bit_at (clear b i) j (omega (arith, len-clear b i v)), get-bit_at b j h)
        (ground (arith, bits-clear b i v j))
  | inr h ↦
      rw (get_over (clear b i) j (omega (arith, len-clear b i v)), get_over b j h) (ground arith)
]

length-zeros : (ws : List ℕ) → length (zeros ws) ≡ length ws
unfolding zeros
length-zeros [] = refl
length-zeros (w ∷ ws) = ap suc (length-zeros ws)

get_or-zeros : (ws : List ℕ) (x : ℕ) → get_or (zeros ws) x 0 ≡ 0
unfolding zeros
get_or-zeros [] x = refl
get_or-zeros (w ∷ ws) zero = refl
get_or-zeros (w ∷ ws) (suc x) = get_or-zeros ws x

-- After `Clean` no index is set.
pub get-clean : (b : BitSet) (i : ℕ) → get (clean b) i ≡ false
unfolding clean get
get-clean b i = ground (arith, get_or-zeros b.set (i / 64), zero-bit_and (2 ^ (i % 64)))
