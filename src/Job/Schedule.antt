-- ===== src/Job/Schedule.antt =====
-- pkg/consumer/job/job.go: when a rollup job is due.
use harns.Prelude.{ℕ, ◌+◌, ◌%◌, ◌≤◌, ◌<◌, ◌≡◌, refl, arith, List, ◌==◌, false}
use harns.Prelude.Int.{ℤ, pos, negsuc}
use harns.Prelude.Outcome.{ok}
use harns.Job.{TimeBlockUnit, Job, minute, hour, day, unix}
use harns.Job.Clock.{
  FixedZone, to_time_block, get_proc_time, minute_ns, hour_ns, day_ns, day_seconds,
}
use harns.Job.Hash.{consumer_id, consumer_id-lt}
use harns.Job.Make.{rollup_job}

-- The unit and the duration of a rollup job, in nanoseconds and in seconds.
pub data IsRollup : TimeBlockUnit → ℕ → ℕ → Type 0 where
  by_minute : IsRollup minute minute_ns 60
  by_hour : IsRollup hour hour_ns 3600
  by_day : IsRollup day day_ns 86400

abbrev pub of_pos : ℤ → ℕ
of_pos (pos n) = n
of_pos (negsuc n) = 0

-- The index of the block of `start`.
pub block_index : ℕ → TimeBlockUnit → FixedZone → ℕ
block_index start unit loc = of_pos (to_time_block start unit loc).index

-- The block of a time begins no later than it, and ends after it.
pub block_contains :
    {unit : TimeBlockUnit} {ns secs : ℕ} (start : ℕ) (loc : FixedZone)
    → IsRollup unit ns secs
    → day_seconds ≤ unix start
    → (block_index start unit loc ≤ unix start) × (unix start < block_index start unit loc + secs)
unfolding block_index to_time_block unix
block_contains start loc by_minute h = omega arith
block_contains start loc by_hour h = omega arith
block_contains start loc by_day h = omega arith

-- The time at which a rollup is due: within one duration from now on, and on a boundary of blocks.
unix_mono : {t t' : ℕ} → day_seconds ≤ unix t → t ≤ t' → day_seconds ≤ unix t'
unfolding unix
unix_mono late le = omega arith

consumer_id_ok :
    (key : List ℕ) (now max : ℕ) → 0 < max → (id : ℕ) × (consumer_id key now max ≡ ok id)
unfolding consumer_id
consumer_id_ok key now max h =
    let positive : max == 0 ≡ false = ground arith in rw positive (_, refl)

due_bounds :
    {unit : TimeBlockUnit} {ns secs : ℕ} (now start : ℕ) (loc : FixedZone)
    → IsRollup unit ns secs
    → day_seconds ≤ unix now
    → (unix now < get_proc_time now start ns loc)
      × (get_proc_time now start ns loc ≤ unix now + secs)
      × ((get_proc_time now start ns loc + loc.east) % secs ≡ 0)
unfolding get_proc_time unix
due_bounds now start loc by_minute h = omega arith
due_bounds now start loc by_hour h = omega arith
due_bounds now start loc by_day h = omega arith

due_after_block :
    {unit : TimeBlockUnit} {ns secs : ℕ} (now start : ℕ) (loc : FixedZone)
    → IsRollup unit ns secs
    → day_seconds ≤ unix start
    → start ≤ now
    → block_index start unit loc + secs ≤ get_proc_time now start ns loc
unfolding block_index to_time_block get_proc_time unix
due_after_block now start loc by_minute h le = omega arith
due_after_block now start loc by_hour h le = omega arith
due_after_block now start loc by_day h le = omega arith

-- In a zone with a fixed offset from UTC (one that changes to daylight-saving time is not covered),
-- take a rollup by the minute, the hour or the day, of a time that is at least a day after the
-- start of 1970 and not after now, with at least one instance. The job can be made and goes to one
-- of the instances. It is due after the end of its block, after now by at most one duration, and
-- on a boundary of blocks on the local clock. Its block contains the time that it is made for.
pub rollup_job-IsDue :
    {unit : TimeBlockUnit} {ns secs : ℕ} (key : List ℕ) (now start : ℕ) (loc : FixedZone) (max : ℕ)
    → IsRollup unit ns secs
    → 0 < max
    → day_seconds ≤ unix start
    → start ≤ now
    → (j : Job) × (rollup_job unit ns key now start loc max ≡ ok j)
      × (j.consumer_id < max)
      × (block_index start unit loc + secs ≤ j.proc_time_sec)
      × (unix now < j.proc_time_sec)
      × (j.proc_time_sec ≤ unix now + secs)
      × ((j.proc_time_sec + loc.east) % secs ≡ 0)
      × (of_pos j.time_block.index ≤ unix start)
      × (unix start < of_pos j.time_block.index + secs)
unfolding rollup_job block_index
rollup_job-IsDue key now start loc max kind h late le =
    let now_late : day_seconds ≤ unix now = unix_mono late le in
    let (id, e) = consumer_id_ok key now max h in
    let (a, b, c) = due_bounds now start loc kind now_late in
    let (d, f) = block_contains start loc kind late in
    rw e (
      _,
      refl,
      consumer_id-lt key now max id e,
      due_after_block now start loc kind late le,
      a,
      b,
      c,
      d,
      f,
    )
