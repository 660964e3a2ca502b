-- ===== src/Job/Make.antt =====
-- pkg/consumer/job/job.go: the jobs that the program makes.
use harns.Prelude.{ℕ, List}
use harns.Prelude.Outcome.{Outcome, ok, ◌>>=◌}
use harns.Job.{
  OperationType, TimeBlockUnit, Job, rollup, delete, minute, hour, day, zero_block, unix,
  time_series_rollup, time_series_delete, event_type_delete, command_type_delete,
  thing_command_delete, thing_action_delete, thing_event_delete, thing_time_series_delete,
}
use harns.Job.Clock.{FixedZone, to_time_block, get_proc_time, minute_ns, hour_ns, day_ns}
use harns.Job.Hash.{consumer_id}

-- The three `rollup…Job` functions differ in the unit and its duration.
unfoldable pub rollup_job : TimeBlockUnit → ℕ → List ℕ → ℕ → ℕ → FixedZone → ℕ → Outcome Job
rollup_job unit duration key now start loc max_instances = do
  id ← consumer_id key now max_instances
  ok (record {
    group = rollup;
    proc_time_sec = get_proc_time now start duration loc;
    consumer_id = id;
    operation = time_series_rollup;
    time_block = to_time_block start unit loc;
    key = key;
  })

abbrev pub rollup_1_minute_job : List ℕ → ℕ → ℕ → FixedZone → ℕ → Outcome Job
rollup_1_minute_job = rollup_job minute minute_ns

abbrev pub rollup_1_hour_job : List ℕ → ℕ → ℕ → FixedZone → ℕ → Outcome Job
rollup_1_hour_job = rollup_job hour hour_ns

abbrev pub rollup_1_day_job : List ℕ → ℕ → ℕ → FixedZone → ℕ → Outcome Job
rollup_1_day_job = rollup_job day day_ns

-- The `delete…Job` functions differ in the operation.
unfoldable pub delete_job : OperationType → List ℕ → ℕ → ℕ → Outcome Job
delete_job operation key now max_instances = do
  id ← consumer_id key now max_instances
  ok (record {
    group = delete;
    proc_time_sec = unix now;
    consumer_id = id;
    operation = operation;
    time_block = zero_block;
    key = key;
  })

abbrev pub delete_thing_job : List ℕ → ℕ → ℕ → Outcome Job
delete_thing_job = delete_job time_series_delete

abbrev pub delete_event_type_job : List ℕ → ℕ → ℕ → Outcome Job
delete_event_type_job = delete_job event_type_delete

abbrev pub delete_command_type_job : List ℕ → ℕ → ℕ → Outcome Job
delete_command_type_job = delete_job command_type_delete

abbrev pub delete_thing_event_job : List ℕ → ℕ → ℕ → Outcome Job
delete_thing_event_job = delete_job thing_event_delete

abbrev pub delete_thing_command_job : List ℕ → ℕ → ℕ → Outcome Job
delete_thing_command_job = delete_job thing_command_delete

abbrev pub delete_thing_action_job : List ℕ → ℕ → ℕ → Outcome Job
delete_thing_action_job = delete_job thing_action_delete

abbrev pub delete_thing_time_series_job : List ℕ → ℕ → ℕ → Outcome Job
delete_thing_time_series_job = delete_job thing_time_series_delete
