-- ===== src/Rollup/Tests.antt =====
-- Runs of the rollup operations, and the theorems at concrete series.
use harns.Prelude.{
  ℕ, ◌+◌, ◌-◌, ◌*◌, ◌/◌, ◌≡◌, refl, arith, List, [], ◌∷◌, ◌++◌, map, true, false, some, ltb,
}
use harns.Prelude.Int.{ℤ, pos, negsuc, diff, quot}
use harns.Rollup.{float64, int64, int, Field, RollupBoolItem}
use harns.Rollup.Booleans.{Sample, aggregate_samples, scan, item_of}
use harns.Rollup.Durations.{spent, occurrences, aggregate_samples_lem}
use harns.Rollup.Numbers.{Floats, RollupNumericItem, aggregate_fields, rollup_items}
use harns.Rollup.Extremes.{IsOrdered}
use harns.Rollup.Stored.{read_item, read_field, rollup_items-read_item}
use harns.Rollup.Partition.{
  Part, aggregate, fields_of, first_field, last_field, min_field, max_field, rollup_items-aggregate,
}

-- True at 10 s and 20 s, false at 30 s, in a block from 0 s to 60 s.
abbrev first_sample : Sample
first_sample = record { value = true; time = 10000000000 }

abbrev later_samples : List Sample
later_samples =
    record { value = true; time = 20000000000 } ∷ record { value = false; time = 30000000000 } ∷ []

aggregate_samples_run :
    aggregate_samples (first_sample ∷ later_samples) 0 60000000000
    ≡ some (record {
      first_true_time = some 10000000000;
      first_false_time = some 30000000000;
      last_true_time = some 20000000000;
      last_false_time = some 30000000000;
      last_value = false;
      true_cnt = 2;
      true_duration = pos 30000;
      false_cnt = 1;
      false_duration = pos 30000;
    })
unfolding aggregate_samples scan item_of diff quot
aggregate_samples_run = refl

aggregate_samples_lem_example :
    (r : RollupBoolItem) × (aggregate_samples (first_sample ∷ later_samples) 0 60000000000 ≡ some r)
    × (r.true_cnt ≡ occurrences true (first_sample ∷ later_samples))
    × (r.false_cnt ≡ occurrences false (first_sample ∷ later_samples))
    × (r.true_duration
        ≡ pos (spent true 0 true (first_sample ∷ later_samples) 60000000000 / 1000000))
    × (r.false_duration
        ≡ pos (spent false 0 true (first_sample ∷ later_samples) 60000000000 / 1000000))
aggregate_samples_lem_example =
    aggregate_samples_lem first_sample later_samples 0 60000000000 (omega arith)

-- Natural numbers in the place of float64, with the order and the sum.
abbrev to_natural : ℤ → ℕ
to_natural (pos n) = n
to_natural (negsuc n) = 0

abbrev naturals : Floats ℕ
naturals = record {
  zero_float = 0;
  lt = ltb;
  add = λ a b. a + b;
  sub = λ a b. a - b;
  mul = λ a b. a * b;
  div = λ a b. a / b;
  square = λ a. a * a;
  sqrt = λ a. a;
  of_int = to_natural;
}

naturals-IsOrdered : IsOrdered ltb
naturals-IsOrdered = record {
  trans = λ a b c h k. ground arith;
  cotrans = λ a b c h k. ground arith;
}

abbrev field_at : ℕ → ℕ → Field ℕ
field_at v t = record { value = float64 v; time = t }

abbrev first_part : Part ℕ
first_part = (field_at 5 1, field_at 2 2 ∷ [])

abbrev other_parts : List (Part ℕ)
other_parts = (field_at 2 3, field_at 9 4 ∷ []) ∷ (field_at 9 5, []) ∷ []

abbrev rolled_up : RollupNumericItem ℕ
rolled_up =
    rollup_items naturals (aggregate naturals first_part) (map (aggregate naturals) other_parts)

abbrev whole : RollupNumericItem ℕ
whole = aggregate_fields naturals first_part.0 (first_part.1 ++ fields_of other_parts)

rollup_items-aggregate_run :
    (first_field rolled_up ≡ first_field whole)
    × (last_field rolled_up ≡ last_field whole)
    × (min_field rolled_up ≡ min_field whole)
    × (max_field rolled_up ≡ max_field whole)
    × (rolled_up.good_cnt ≡ whole.good_cnt)
    × (rolled_up.bad_cnt ≡ whole.bad_cnt)
    × (rolled_up.uncertain_cnt ≡ whole.uncertain_cnt)
rollup_items-aggregate_run =
    rollup_items-aggregate naturals first_part other_parts naturals-IsOrdered

-- A series of an int64, an int and a float64 value.
abbrev mixed_part : Part ℕ
mixed_part =
    (record { value = int64 (pos 5); time = 1 }, record { value = int (pos 2); time = 2 } ∷ [])

abbrev read_up : RollupNumericItem ℕ
read_up =
    rollup_items naturals (read_item naturals (aggregate naturals mixed_part))
      (map (read_item naturals) (map (aggregate naturals) other_parts))

abbrev mixed_whole : RollupNumericItem ℕ
mixed_whole = aggregate_fields naturals mixed_part.0 (mixed_part.1 ++ fields_of other_parts)

-- The first value was an int64, and comes back as a float64.
read_first_run : first_field read_up ≡ record { value = float64 5; time = 1 }
unfolding rollup_items aggregate_fields
read_first_run = refl

rollup_items-read_item_example :
    (first_field read_up ≡ read_field naturals (first_field mixed_whole))
    × (last_field read_up ≡ read_field naturals (last_field mixed_whole))
    × (min_field read_up ≡ read_field naturals (min_field mixed_whole))
    × (max_field read_up ≡ read_field naturals (max_field mixed_whole))
    × (read_up.good_cnt ≡ mixed_whole.good_cnt)
    × (read_up.bad_cnt ≡ mixed_whole.bad_cnt)
    × (read_up.uncertain_cnt ≡ mixed_whole.uncertain_cnt)
rollup_items-read_item_example =
    rollup_items-read_item naturals mixed_part other_parts naturals-IsOrdered
