-- ===== src/Job/Tests.antt =====
-- Runs of the job operations, and the theorems at concrete jobs.
use harns.Prelude.{
  ℕ, ◌+◌, ◌≤◌, ◌<◌, ◌≡◌, ◌%◌, ◌⊎◌, ◌↔◌, ◌≢◌, refl, arith, List, [], ◌∷◌, true, none, length, take,
  if◌then◌else◌, ◌==◌, ◌&&◌, ◌||◌, ltb, not,
}
use harns.Prelude.Int.{pos}
use harns.Prelude.Decimal.{digits, decimal, pad, print_padded}
use harns.Prelude.Outcome.{ok, panic}
use harns.Prelude.Bytes.{eq_bytes}
use harns.Job.{Job, rollup, hour, unix, time_series_rollup}
use harns.Job.Text.{job_string, block_string, job_of, operation_from_string}
use harns.Job.Clock.{
  hour_ns, get_proc_time, remaining_of, get_local_time, local_time, date_unix, to_time_block,
  truncate,
}
use harns.Job.Make.{rollup_job}
use harns.Job.Manager.{Manager, Query, Row, new, write_job, maintain_cache, cache_key, job_of_row}
use harns.Job.RoundTrip.{job_of-job_string, job_of-panic_iff}
use harns.Job.Schedule.{rollup_job-IsDue, by_hour, block_index, of_pos}
use harns.Job.Cache.{cached, due, cached-write_job, write_job_twice, cached-maintain_cache}
use harns.Job.Once.{
  Event, roll, tick, nil, roll_cons, tick_cons, run, upserts, some_asks, upserts-run,
}
use harns.Job.Retrieve.{row_of, IsPrintable, rows_of, keep, is_asked, due_jobs, job_of_row-row_of}

-- The rollup of the hour from 1700000000 - 800 on (2023-11-14 22:00 UTC).
abbrev hour_job : Job
hour_job = record {
  group = rollup;
  proc_time_sec = 1700002800;
  consumer_id = 3;
  operation = time_series_rollup;
  time_block = record { index = pos 1699999200; unit = hour };
  key = b't' ∷ b'/' ∷ b'p' ∷ [];
}

hour_job_string :
    job_string hour_job
    ≡ b'T' ∷ b'S' ∷ b'R' ∷ b'1' ∷ b'6' ∷ b'9' ∷ b'9' ∷ b'9' ∷ b'9' ∷ b'9' ∷ b'2' ∷ b'0' ∷ b'0'
      ∷ b'h' ∷ b't' ∷ b'/' ∷ b'p' ∷ []
unfolding job_string block_string print_padded pad decimal digits
hour_job_string = refl

-- 22:13:20 UTC is in the block from 22:00:00 on.
block_run : to_time_block 1700000000000000000 hour (record { east = 86400 }) ≡ hour_job.time_block
unfolding to_time_block local_time date_unix truncate unix
block_run = refl

proc_time_run :
    get_proc_time 1700000000000000000 1700000000000000000 hour_ns (record { east = 86400 })
    ≡ 1700002800
unfolding get_proc_time remaining_of get_local_time local_time date_unix unix
proc_time_run = refl

job_of-job_string_example :
    job_of (job_string hour_job)
    ≡ ok (record hour_job { group = rollup; proc_time_sec = 0; consumer_id = 0 })
job_of-job_string_example = job_of-job_string hour_job 1699999200 refl (omega arith)

abbrev short_text : List ℕ
short_text = b'T' ∷ b'S' ∷ b'R' ∷ b'1' ∷ []

job_of-panic_iff_example : (job_of short_text ≡ panic) ↔ (
    (length short_text < 3)
    ⊎ ((length short_text < 14) × (operation_from_string (take 3 short_text) ≢ none)))
job_of-panic_iff_example = job_of-panic_iff short_text

rollup_job-IsDue_example :
    (j : Job) × (rollup_job hour hour_ns hour_job.key 1700000000000000000 1700000000000000000
        (record { east = 86400 })
        16
      ≡ ok j)
    × (j.consumer_id < 16)
    × (block_index 1700000000000000000 hour (record { east = 86400 }) + 3600 ≤ j.proc_time_sec)
    × (unix 1700000000000000000 < j.proc_time_sec)
    × (j.proc_time_sec ≤ unix 1700000000000000000 + 3600)
    × ((j.proc_time_sec + 86400) % 3600 ≡ 0)
    × (of_pos j.time_block.index ≤ unix 1700000000000000000)
    × (unix 1700000000000000000 < of_pos j.time_block.index + 3600)
unfolding unix
rollup_job-IsDue_example =
    rollup_job-IsDue hour_job.key 1700000000000000000 1700000000000000000 (record { east = 86400 })
      16 by_hour (omega arith) (omega arith) (omega arith)

cached-write_job_run :
    cached (write_job (new 16 30) hour_job true) 1700003160 (cache_key hour_job) ≡ (
      due (new 16 30) hour_job == 1700003160 && eq_bytes (cache_key hour_job) (cache_key hour_job)
      || cached (new 16 30) 1700003160 (cache_key hour_job))
cached-write_job_run = cached-write_job (new 16 30) hour_job 1700003160 (cache_key hour_job)

write_job_twice_run :
    write_job (write_job (new 16 30) hour_job true) hour_job true
    ≡ write_job (new 16 30) hour_job true
write_job_twice_run = write_job_twice (new 16 30) hour_job

abbrev after_write : Manager
after_write = write_job (new 16 30) hour_job true

cached-maintain_cache_run :
    cached (maintain_cache after_write 1700003161) 1700003160 (cache_key hour_job)
    ≡ (not (ltb 1700003160 1700003161) && cached after_write 1700003160 (cache_key hour_job))
cached-maintain_cache_run =
    cached-maintain_cache after_write 1700003161 1700003160 (cache_key hour_job)

-- The same hour is asked for twice, at two times, with a tick between.
abbrev events : List Event
events =
    roll hour hour_ns hour_job.key 1700000000000000000 1700000000000000000 (record { east = 86400 })
    ∷ tick 1700000500
    ∷ roll hour hour_ns hour_job.key 1700000900000000000 1700000000000000000
        (record { east = 86400 })
    ∷ []

upserts-run_example :
    (m : Manager) × (run (new 16 30) events ≡ ok m)
    × (upserts 1700003160 (cache_key hour_job) m.log
        ≡ (if some_asks 30 1700003160 (cache_key hour_job) events then 1 else 0))
upserts-run_example =
    upserts-run 16 30 events 1700003160 (cache_key hour_job) (omega arith)
      (roll_cons (tick_cons (omega arith) (roll_cons nil)))

hour_job-IsPrintable : IsPrintable hour_job
hour_job-IsPrintable = record {
  block_start = 1699999200;
  starts = refl;
  ten_digits = omega arith;
  uint16 = omega arith;
}

job_of_row-row_of_example : job_of_row (row_of hour_job 5) ≡ ok hour_job
job_of_row-row_of_example = job_of_row-row_of hour_job 5 hour_job-IsPrintable (omega arith)

-- A job of another worker, and one that is not due.
abbrev stored : List Job
stored =
    record hour_job { consumer_id = 4 }
    ∷ hour_job
    ∷ record hour_job { proc_time_sec = 1800000000 }
    ∷ []

abbrev list_stored : Query → List Row
list_stored q = rows_of (take q.limit (keep (is_asked q) stored))

due_run : due_jobs stored (λ r. 1700003000000000000 + r) rollup 0 (3 ∷ 5 ∷ []) ≡ hour_job ∷ []
unfolding due_jobs
due_run = refl
