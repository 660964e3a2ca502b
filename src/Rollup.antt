-- ===== src/Rollup.antt =====
-- pkg/consumer/data/types.go and rollup.go: the items that sum up the values of a property over a
-- block of time.
--
-- A time is a number of nanoseconds since 1970; the zero `time.Time` is `none`. A difference of times
-- is an integer. Floating-point numbers are a parameter.
pub mod Booleans
pub mod Durations
pub mod Numbers
pub mod Extremes
pub mod Partition
pub mod Stored
mod Tests
use harns.Prelude.{ℕ, Bool, Option}
use harns.Prelude.Int.{ℤ}

-- A value of a time series: the cases of the switches and assertions on it. `F` is float64.
pub data Value (F : Type 0) : Type 0 where
  truth : Bool → Value F
  float64 : F → Value F
  int64 : ℤ → Value F
  int : ℤ → Value F
  text : Value F

pub record Field (F : Type 0) : Type 0 where
  pub value : Value F
  pub time : ℕ

pub record RollupBoolItem : Type 0 where
  pub first_true_time : Option ℕ
  pub first_false_time : Option ℕ
  pub last_true_time : Option ℕ
  pub last_false_time : Option ℕ
  pub last_value : Bool
  pub true_cnt : ℕ
  pub true_duration : ℤ  -- in milliseconds
  pub false_cnt : ℕ
  pub false_duration : ℤ  -- in milliseconds
