-- ===== src/Job.antt =====
-- pkg/consumer/job/constants.go and the types of job.go: jobs, their operations and time blocks.
--
-- Text is a list of bytes. A time is a number of nanoseconds since 1970, and the times before are
-- not modelled; `Unix()` and `UnixMilli()` are quotients of it.
pub mod Text
pub mod Clock
pub mod Hash
pub mod Make
pub mod Manager
pub mod RoundTrip
pub mod Schedule
pub mod Cache
pub mod Once
pub mod Retrieve
mod Tests
use harns.Prelude.{ℕ, ◌*◌, ◌/◌, List, [], ◌∷◌, Option, none, some}
use harns.Prelude.Int.{ℤ, pos}

pub data Group : Type 0 where
  rollup delete : Group

pub data OperationType : Type 0 where
  time_series_rollup time_series_delete event_type_delete command_type_delete : OperationType
  thing_command_delete thing_action_delete thing_event_delete : OperationType
  thing_time_series_delete : OperationType

pub data TimeBlockUnit : Type 0 where
  second minute hour day week month : TimeBlockUnit

pub Group-discrete : Discrete Group
Group-discrete = hlevel

pub OperationType-discrete : Discrete OperationType
OperationType-discrete = hlevel

pub TimeBlockUnit-discrete : Discrete TimeBlockUnit
TimeBlockUnit-discrete = hlevel

-- `GroupToString`
abbrev pub group_to_string : Group → List ℕ
group_to_string rollup = b'r' ∷ b'u' ∷ b'p' ∷ []
group_to_string delete = b'd' ∷ b'e' ∷ b'l' ∷ []

-- `operationTypeToString`
abbrev pub operation_to_string : OperationType → List ℕ
operation_to_string time_series_rollup = b'T' ∷ b'S' ∷ b'R' ∷ []
operation_to_string time_series_delete = b'T' ∷ b'S' ∷ b'D' ∷ []
operation_to_string event_type_delete = b'E' ∷ b'T' ∷ b'D' ∷ []
operation_to_string command_type_delete = b'C' ∷ b'T' ∷ b'D' ∷ []
operation_to_string thing_command_delete = b'T' ∷ b'C' ∷ b'D' ∷ []
operation_to_string thing_action_delete = b'T' ∷ b'A' ∷ b'D' ∷ []
operation_to_string thing_event_delete = b'T' ∷ b'E' ∷ b'D' ∷ []
operation_to_string thing_time_series_delete = b'T' ∷ b'T' ∷ b'D' ∷ []

-- `TimeBlockUnitToString`
abbrev pub unit_to_string : TimeBlockUnit → ℕ
unit_to_string second = b's'
unit_to_string minute = b'm'
unit_to_string hour = b'h'
unit_to_string day = b'd'
unit_to_string week = b'W'
unit_to_string month = b'M'

-- `TimeBlockUnitDuration`, in milliseconds.
abbrev pub unit_duration : TimeBlockUnit → ℕ
unit_duration second = 1000
unit_duration minute = 60000
unit_duration hour = 3600000
unit_duration day = 86400000
unit_duration week = 604800000
unit_duration month = 0

-- `index` is an int64, in seconds.
pub record TimeBlock : Type 0 where
  pub index : ℤ
  pub unit : TimeBlockUnit

pub record Job : Type 0 where
  pub group : Group
  pub proc_time_sec : ℕ  -- int64
  pub consumer_id : ℕ  -- uint16
  pub operation : OperationType
  pub time_block : TimeBlock
  pub key : List ℕ

-- The zero value of `timeBlock`.
abbrev pub zero_block : TimeBlock
zero_block = record { index = pos 0; unit = second }

-- `delayFactorByTimeBlock`; a unit that is not in the map has the factor 0.
abbrev pub delay_factor : TimeBlockUnit → ℕ
delay_factor second = 1
delay_factor minute = 1
delay_factor hour = 12
delay_factor day = 24
delay_factor week = 0
delay_factor month = 0

-- `DelaySec`
unfoldable pub delay_sec : Job → ℕ → ℕ
delay_sec j base = delay_factor j.time_block.unit * base

abbrev pub nanos_per_second : ℕ
nanos_per_second = 1000000000

-- `t.Unix()` and `t.UnixMilli()`
unfoldable pub unix : ℕ → ℕ
unix t = t / nanos_per_second

unfoldable pub unix_milli : ℕ → ℕ
unix_milli t = t / 1000000
