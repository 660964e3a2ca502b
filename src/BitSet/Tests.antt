-- ===== src/BitSet/Tests.antt =====
-- Runs of the bit set's operations, and the theorems at concrete sets.
use harns.Prelude.{ℕ, ◌≡◌, refl, arith, [], ◌∷◌, true, false, some, ltb, ◌==◌, ◌&&◌, if◌then◌else◌}
use harns.BitSet.{
  BitSet, new, get, set_bit, clear, clean, next_clear, next_set, next_clear_from, next_set_from,
  trailing_zeros, all_bits,
}
use harns.BitSet.Access.{
  IsValid, new_lem, set_bit-IsValid, clear-IsValid, get-set_bit, get-clear, get-clean,
}
use harns.BitSet.Search.{FirstIndex, next_clear-FirstIndex, next_set-FirstIndex}

-- Length 70, made by `New`, with the indexes 3 and 65 set.
abbrev empty : BitSet
empty = (new_lem 70 (omega arith)).0

abbrev filled : BitSet
filled = set_bit (set_bit empty 3) 65

empty-IsValid : IsValid empty
empty-IsValid = (new_lem 70 (omega arith)).2

filled-IsValid : IsValid filled
filled-IsValid = set_bit-IsValid (set_bit empty 3) 65 (set_bit-IsValid empty 3 empty-IsValid)

abbrev two_words : BitSet
two_words = record { len = 70; set = all_bits ∷ 1 ∷ [] }

next_clear_run : next_clear two_words 3 ≡ (65, true)
unfolding next_clear next_clear_from trailing_zeros
next_clear_run = refl

-- The bits from index 65 on are clear, but the length ends before index 70.
next_clear_end : next_clear (record { len = 70; set = all_bits ∷ 63 ∷ [] }) 3 ≡ (0, false)
unfolding next_clear next_clear_from trailing_zeros
next_clear_end = refl

next_set_run : next_set (record { len = 70; set = 0 ∷ 2 ∷ [] }) 3 ≡ (65, true)
unfolding next_set next_set_from trailing_zeros
next_set_run = refl

next_clear-FirstIndex_example : FirstIndex filled false 3 (next_clear filled 3)
next_clear-FirstIndex_example = next_clear-FirstIndex filled 3 filled-IsValid

next_set-FirstIndex_example : FirstIndex filled true 4 (next_set filled 4)
next_set-FirstIndex_example = next_set-FirstIndex filled 4 filled-IsValid

new_lem_run :
    (b : BitSet) × (new 70 ≡ some b) × IsValid b × (b.len ≡ 70) × ((i : ℕ) → get b i ≡ false)
new_lem_run = new_lem 70 (omega arith)

set_bit-IsValid_run : IsValid (set_bit filled 69)
set_bit-IsValid_run = set_bit-IsValid filled 69 filled-IsValid

clear-IsValid_run : IsValid (clear filled 65)
clear-IsValid_run = clear-IsValid filled 65 filled-IsValid

get-set_bit_run :
    get (set_bit filled 69) 69 ≡ (if 69 == 69 && ltb 69 filled.len then true else get filled 69)
get-set_bit_run = get-set_bit filled 69 69 filled-IsValid

get-clear_run : get (clear filled 65) 65 ≡ false
get-clear_run = get-clear filled 65 65 filled-IsValid

get-clean_run : get (clean two_words) 3 ≡ false
get-clean_run = get-clean two_words 3
