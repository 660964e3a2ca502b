-- ===== src/Registry/Tests.antt =====
-- Runs of the registry's operations, and the theorems at a concrete table.
use harns.Prelude.{ℕ, ◌≡◌, refl, arith, List, [], ◌∷◌, some, ◌+◌, ◌≤◌, max}
use harns.BitSet.{new, set_bit, next_clear, next_clear_from, trailing_zeros}
use harns.Registry.{
  ConsumerInfo, acquire, release, set_all, set_ids, allocate, allocate_ids, enter, enter_at,
  collate, is_alive, find_by_name, finish, expected_id_cnt, has, remove_at,
}
use harns.Registry.Holders.{holders, held_total, count_id}
use harns.Registry.Shares.{sum_shares_all, expected_id_cnt_even, sum_shares}
use harns.Registry.Exclusive.{
  IsExclusive, HasRoom, length-allocate, length-allocate_free, allocate_others, expected_of,
}
use harns.Registry.AllocateIds.{
  allocate-some, allocate_ids-some, allocate_ids-IsExclusive, collated, entered_self,
}

-- One consumer holds 0 and 2 of the identifiers 0 .. 3, and another is about to enter.
abbrev first_consumer : ConsumerInfo
first_consumer = record { ids = 0 ∷ 2 ∷ []; name = "a"; recent_time = 900 }

abbrev second_consumer : ConsumerInfo
second_consumer = record { ids = []; name = "b"; recent_time = 1000 }

abbrev table : List ConsumerInfo
table = first_consumer ∷ []

abbrev both : List ConsumerInfo
both = first_consumer ∷ second_consumer ∷ []

allocate_ids_run :
    allocate_ids 4 10 "b" 1000 1000 [] table
    ≡ some (1 ∷ 3 ∷ [], first_consumer ∷ record second_consumer { ids = 1 ∷ 3 ∷ [] } ∷ [])
unfolding allocate_ids enter enter_at collate is_alive find_by_name finish allocate acquire set_all
    set_ids set_bit new next_clear next_clear_from trailing_zeros expected_id_cnt
allocate_ids_run = refl

allocate_run : allocate 4 second_consumer both [] ≡ some (1 ∷ 3 ∷ [])
unfolding find_by_name allocate acquire set_all set_ids set_bit new next_clear next_clear_from
    trailing_zeros expected_id_cnt
allocate_run = refl

table-IsExclusive : IsExclusive table
unfolding holders count_id
table-IsExclusive id = ground arith

table-HasRoom : HasRoom 4 (entered_self "b" 1000 table) (collated "b" 10 1000 1000 table)
unfolding held_total enter enter_at collate is_alive find_by_name expected_id_cnt
table-HasRoom = omega arith

both-HasRoom : HasRoom 4 second_consumer both
unfolding held_total find_by_name expected_id_cnt
both-HasRoom = omega arith

holders_zero : 1 ≤ holders 0 both
unfolding holders count_id
holders_zero = omega arith

allocate_ids-IsExclusive_example :
    IsExclusive (first_consumer ∷ record second_consumer { ids = 1 ∷ 3 ∷ [] } ∷ [])
allocate_ids-IsExclusive_example =
    allocate_ids-IsExclusive 4 10 "b" 1000 1000 [] table (1 ∷ 3 ∷ [])
      (first_consumer ∷ record second_consumer { ids = 1 ∷ 3 ∷ [] } ∷ []) (omega arith)
      (omega arith) table-IsExclusive table-HasRoom allocate_ids_run

length-allocate_example :
    (expected_of 4 second_consumer both ≤ 2) × (2 ≤ max 0 (expected_of 4 second_consumer both))
length-allocate_example =
    length-allocate 4 (omega arith) (omega arith) second_consumer both [] (1 ∷ 3 ∷ []) both-HasRoom
      allocate_run

length-allocate_free_run : 2 ≡ expected_of 4 second_consumer both
length-allocate_free_run =
    length-allocate_free 4 (omega arith) (omega arith) second_consumer both [] (1 ∷ 3 ∷ [])
      both-HasRoom allocate_run refl

allocate_others_example : count_id 0 (1 ∷ 3 ∷ []) ≤ count_id 0 []
allocate_others_example =
    allocate_others 4 (omega arith) (omega arith) second_consumer both [] (1 ∷ 3 ∷ []) 0
      allocate_run holders_zero (omega arith)

sum_shares_all_example : sum_shares 10 3 3 ≡ 10
sum_shares_all_example = sum_shares_all 10 3 (omega arith)

expected_id_cnt_even_example : expected_id_cnt 10 3 (some 0) ≤ expected_id_cnt 10 3 (some 2) + 1
expected_id_cnt_even_example = expected_id_cnt_even 10 3 0 2 (omega arith) (omega arith)

-- Where other consumers hold all but two identifiers, a consumer that looks for four gets one twice.
abbrev crowded : List ConsumerInfo
crowded = record { ids = 0 ∷ 1 ∷ 2 ∷ 3 ∷ 6 ∷ 7 ∷ []; name = "a"; recent_time = 0 } ∷ []

acquire_twice :
    acquire 8 (set_all (record { len = 8; set = 0 ∷ [] }) crowded) 0 4 [] ≡ 4 ∷ 5 ∷ 4 ∷ []
unfolding acquire set_all set_ids set_bit next_clear next_clear_from trailing_zeros
acquire_twice = refl

-- With identifier 7 locked, at place 1, `release` gives up 7, and keeps 1 at place 0.
release_locked : release (7 ∷ []) 2 1 (1 ∷ 7 ∷ []) ≡ 1 ∷ []
unfolding release has remove_at
release_locked = refl

allocate_ids-some_example :
    (ids : List ℕ) × (written : List ConsumerInfo) × (allocate_ids 4 10 "b" 1000 1199 [] table
      ≡ some (ids, written))
allocate_ids-some_example =
    allocate_ids-some 4 10 "b" 1000 1199 [] table (omega arith) (omega arith)

allocate-some_run : (ids : List ℕ) × (allocate 4 second_consumer both (0 ∷ []) ≡ some ids)
allocate-some_run = allocate-some 4 second_consumer both (0 ∷ []) (omega arith) (omega arith)
