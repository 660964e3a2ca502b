-- ===== src/BitSet.antt =====
-- pkg/util/bitset/bits.go: a bit set over an array of 64-bit words. A `uint` is a number below
-- 2 ^ 64; `set[i >> 6]` and `1 << (i & 63)` are written with `/` and `%`.
pub mod Words
pub mod Access
pub mod Find
pub mod Search
mod Tests
use harns.Prelude.{
  ℕ, zero, suc, ◌+◌, ◌-◌, ◌*◌, ◌/◌, ◌%◌, ◌^◌, bit_or, bit_and, Bool, true, false, Option, none,
  some, List, [], ◌∷◌, ◌&&◌, ltb, leb, ◌==◌, not, if◌then◌else◌, length, get_or, set as set_elem,
  replicate, drop,
}
use harns.Prelude.Bits.{bit_clear}

abbrev pub bits_per_word : ℕ
bits_per_word = 64

-- 0xffffffffffffffff
abbrev pub all_bits : ℕ
all_bits = 18446744073709551615

pub record BitSet : Type 0 where
  pub len : ℕ
  pub set : List ℕ

-- `New`; `none` is the nil that a length of 0 gives.
unfoldable pub new : ℕ → Option BitSet
new n =
    if n == 0
    then none
    else some (record { len = n; set = replicate ((n - 1) / bits_per_word + 1) 0 })

-- `b.set[i>>6] & (1<<(i&63)) != 0`, false out of range.
unfoldable pub get : BitSet → ℕ → Bool
get b i =
    if leb b.len i
    then false
    else not (bit_and (get_or b.set (i / bits_per_word) 0) (2 ^ (i % bits_per_word)) == 0)

unfoldable pub set_bit : BitSet → ℕ → BitSet
set_bit b i =
    let x = i / bits_per_word in
    if leb b.len i
    then b
    else record b { set = set_elem b.set x (bit_or (get_or b.set x 0) (2 ^ (i % bits_per_word))) }

unfoldable pub clear : BitSet → ℕ → BitSet
clear b i =
    let x = i / bits_per_word in
    if leb b.len i then b else record b {
      set = set_elem b.set x (bit_clear (get_or b.set x 0) (2 ^ (i % bits_per_word)));
    }

unfoldable pub set_value : BitSet → ℕ → Bool → BitSet
unfolding set_bit clear
set_value b i value = if leb b.len i then b else if value then set_bit b i else clear b i

zeros : List ℕ → List ℕ
zeros [] = []
zeros (w ∷ ws) = 0 ∷ zeros ws

unfoldable pub clean : BitSet → BitSet
unfolding zeros
clean b = record b { set = zeros b.set }

-- `bits.TrailingZeros64`, on words of `n` bits: `n` for the word 0.
unfoldable pub trailing_zeros : ℕ → ℕ → ℕ
trailing_zeros zero w = 0
trailing_zeros (suc n) w = if w % 2 == 0 then suc (trailing_zeros n (w / 2)) else 0

abbrev pub trailing_zeros64 : ℕ → ℕ
trailing_zeros64 = trailing_zeros 64

-- The loop of `NextSet` over the words that are left, the first of them at index `x`.
unfoldable pub next_set_from : List ℕ → ℕ → ℕ × Bool
next_set_from [] x = (0, false)
next_set_from (w ∷ ws) x =
    if w == 0 then next_set_from ws (x + 1) else (x * bits_per_word + trailing_zeros64 w, true)

unfoldable pub next_set : BitSet → ℕ → ℕ × Bool
unfolding next_set_from
next_set b i =
    let x = i / bits_per_word in
    let w = get_or b.set x 0 / 2 ^ (i % bits_per_word) in
    if leb (length b.set) x
    then (0, false)
    else if w == 0
    then next_set_from (drop (x + 1) b.set) (x + 1)
    else (i + trailing_zeros64 w, true)

-- The loop of `NextClear` over the words that are left; `^w` is `all_bits - w`.
unfoldable pub next_clear_from : ℕ → List ℕ → ℕ → ℕ × Bool
next_clear_from len [] x = (0, false)
next_clear_from len (w ∷ ws) x =
    let index = x * bits_per_word + trailing_zeros64 (all_bits - w) in
    if not (w == all_bits) && ltb index len then (index, true) else next_clear_from len ws (x + 1)

unfoldable pub next_clear : BitSet → ℕ → ℕ × Bool
unfolding next_clear_from
next_clear b i =
    let x = i / bits_per_word in
    let w = get_or b.set x 0 / 2 ^ (i % bits_per_word) in
    let w_a = all_bits / 2 ^ (i % bits_per_word) in
    let index = i + trailing_zeros64 (all_bits - w) in
    if leb (length b.set) x
    then (0, false)
    else if not (w == w_a) && ltb index b.len
    then (index, true)
    else next_clear_from b.len (drop (x + 1) b.set) (x + 1)
