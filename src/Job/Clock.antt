-- ===== src/Job/Clock.antt =====
-- pkg/consumer/job/job.go: time blocks and the time at which a job is due.
--
-- A location has a fixed offset from UTC, as those of `time.FixedZone`; a zone that changes to
-- daylight-saving time is not modelled. `east` is the
-- offset in seconds plus one day, so that it is not negative; the local clock is then a day ahead,
-- which changes neither the time of the day nor what `time.Date` gives back. A date is the number of
-- its day, and `Clock()` are the quotients of the second of the day.
use harns.Prelude.{ℕ, ◌+◌, ◌-◌, ◌*◌, ◌/◌, ◌%◌, ltb, leb, if◌then◌else◌}
use harns.Prelude.Int.{pos}
use harns.Job.{
  TimeBlockUnit, TimeBlock, second, minute, hour, day, week, month, unix, unix_milli, unit_duration,
}

pub record FixedZone : Type 0 where
  pub east : ℕ

abbrev pub day_seconds : ℕ
day_seconds = 86400

-- A date and a time of the day on the local clock.
pub record LocalTime : Type 0 where
  pub date : ℕ
  pub hours : ℕ
  pub minutes : ℕ
  pub seconds : ℕ

-- `t.In(loc)` with `Date()` and `Clock()`.
unfoldable pub local_time : FixedZone → ℕ → LocalTime
local_time loc t =
    let wall = unix t + loc.east in
    record {
      date = wall / day_seconds;
      hours = wall % day_seconds / 3600;
      minutes = wall % 3600 / 60;
      seconds = wall % 60;
    }

-- `time.Date(year, month, day, hour, min, sec, 0, loc).Unix()`
unfoldable pub date_unix : FixedZone → LocalTime → ℕ
date_unix loc l = l.date * day_seconds + l.hours * 3600 + l.minutes * 60 + l.seconds - loc.east

-- The switch of `toTimeBlock`, with its fallthroughs.
unfoldable pub truncate : TimeBlockUnit → LocalTime → LocalTime
truncate day l = record l { hours = 0; minutes = 0; seconds = 0 }
truncate hour l = record l { minutes = 0; seconds = 0 }
truncate minute l = record l { seconds = 0 }
truncate second l = l
truncate week l = l
truncate month l = l

unfoldable pub to_time_block : ℕ → TimeBlockUnit → FixedZone → TimeBlock
unfolding local_time date_unix truncate
to_time_block t unit loc = record {
  index = pos (date_unix loc (truncate unit (local_time loc t)));
  unit = unit;
}

-- `Duration`, in nanoseconds.
unfoldable pub block_duration : TimeBlock → ℕ
block_duration tb = unit_duration tb.unit * 1000000

-- A `time.Duration` is in nanoseconds.
abbrev pub second_ns : ℕ
second_ns = 1000000000

abbrev pub minute_ns : ℕ
minute_ns = 60 * second_ns

abbrev pub hour_ns : ℕ
hour_ns = 60 * minute_ns

abbrev pub day_ns : ℕ
day_ns = 24 * hour_ns

-- `getLocalTime`, as the seconds of what it returns.
unfoldable pub get_local_time : ℕ → ℕ → FixedZone → ℕ
unfolding local_time date_unix
get_local_time t d loc =
    let l = local_time loc t in
    if leb day_ns d
    then date_unix loc (record l { hours = 0; minutes = 0; seconds = 0 })
    else if leb hour_ns d
    then date_unix loc (record l { minutes = 0; seconds = 0 })
    else date_unix loc (record l { seconds = 0 })

-- `remaining` of `getProcTime`.
unfoldable pub remaining_of : ℕ → ℕ → ℕ → ℕ
remaining_of now start duration =
    let duration_milli = duration / 1000000 in
    if ltb (start + duration) now
    then duration
    else (duration_milli - unix_milli start % duration_milli) * 1000000

-- `getProcTime`: the second at which the job will be handled.
unfoldable pub get_proc_time : ℕ → ℕ → ℕ → FixedZone → ℕ
unfolding remaining_of get_local_time
get_proc_time now start duration loc =
    let remaining = remaining_of now start duration in
    let denominator : ℕ = 1 in
    if ltb duration minute_ns
    then unix (now + remaining) / denominator * denominator
    else unix (get_local_time now duration loc * second_ns + duration)
