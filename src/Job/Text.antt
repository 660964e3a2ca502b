-- ===== src/Job/Text.antt =====
-- pkg/consumer/job/job.go: the text form of time blocks and jobs. A slice out of range panics.
use harns.Prelude.{
  ℕ, List, [], ◌∷◌, ◌++◌, Option, none, some, ltb, if◌then◌else◌, length, take, drop,
}
use harns.Prelude.Bytes.{eq_bytes}
use harns.Prelude.Int.{ℤ}
use harns.Prelude.Decimal.{print_padded, parse_int}
use harns.Prelude.Outcome.{Outcome, ok, err, panic, ◌>>=◌}
use harns.Job.{
  Group, OperationType, TimeBlockUnit, TimeBlock, Job, rollup, operation_to_string, unit_to_string,
  second, minute, hour, day, week, month, time_series_rollup, time_series_delete, event_type_delete,
  command_type_delete, thing_command_delete, thing_action_delete, thing_event_delete,
  thing_time_series_delete, delete,
}

-- A lookup in a Go map that lists its entries.
abbrev pub find_key {ℓ} : {A : Type ℓ} → (A → List ℕ) → List A → List ℕ → Option A
find_key name [] s = none
find_key name (a ∷ as') s =
    let rest = find_key name as' s in if eq_bytes (name a) s then some a else rest

-- `operationTypeFromString`
unfoldable pub operation_from_string : List ℕ → Option OperationType
operation_from_string = find_key operation_to_string (
    time_series_rollup ∷ time_series_delete ∷ event_type_delete ∷ command_type_delete
    ∷ thing_command_delete ∷ thing_action_delete ∷ thing_event_delete ∷ thing_time_series_delete
    ∷ [])

-- `GroupFromString[s]`, the zero value for a name that is not in the map.
unfoldable pub group_from_string : List ℕ → Group
group_from_string s = if eq_bytes (b'd' ∷ b'e' ∷ b'l' ∷ []) s then delete else rollup

-- `TimeBlockUnitFromString`
unfoldable pub unit_from_string : ℕ → Option TimeBlockUnit
unit_from_string c =
    find_key (λ u. unit_to_string u ∷ []) (second ∷ minute ∷ hour ∷ day ∷ week ∷ month ∷ [])
      (c ∷ [])

-- `(*timeBlock).String`
unfoldable pub block_string : TimeBlock → List ℕ
block_string tb = print_padded 10 tb.index ++ unit_to_string tb.unit ∷ []

-- The last byte and those before it.
unfoldable pub split_last : List ℕ → Outcome (List ℕ × ℕ)
split_last [] = panic
split_last (c ∷ []) = ok ([], c)
split_last (c ∷ d ∷ cs) = do r ← split_last (d ∷ cs); ok (c ∷ r.0, r.1)

abbrev pub or_err {ℓ} : {A : Type ℓ} → Option A → Outcome A
or_err none = err
or_err (some a) = ok a

-- The end of `(*timeBlock).Of`: an index or a unit that cannot be read is an error.
unfoldable pub block_rest : Option ℤ → Option TimeBlockUnit → Outcome TimeBlock
block_rest index unit = do i ← or_err index; u ← or_err unit; ok (record { index = i; unit = u })

-- `(*timeBlock).Of`
unfoldable pub block_of : List ℕ → Outcome TimeBlock
unfolding split_last unit_from_string block_rest
block_of s = do parts ← split_last s; block_rest (parse_int parts.0) (unit_from_string parts.1)

-- `(*Job).String`
unfoldable pub job_string : Job → List ℕ
job_string j = operation_to_string j.operation ++ block_string j.time_block ++ j.key

-- `s[:n]`
abbrev pub slice_to : ℕ → List ℕ → Outcome (List ℕ)
slice_to n s = if ltb (length s) n then panic else ok (take n s)

-- `(*Job).Of`: the fields that the text does not hold get their zero values.
unfoldable pub job_of : List ℕ → Outcome Job
job_of s = do
  code ← slice_to 3 s
  op ← or_err (operation_from_string code)
  block ← slice_to 14 s
  tb ← block_of (drop 3 block)
  ok (record {
    group = rollup;
    proc_time_sec = 0;
    consumer_id = 0;
    operation = op;
    time_block = tb;
    key = drop 14 s;
  })
