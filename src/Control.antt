-- ===== src/Control.antt =====
-- pkg/control/runtime/types.go and constraint.go, and pkg/control/v1/types.go: the data of the command
-- types and the commands.
--
-- A float64 is of a type `F`, and an array or an object in a request of a type `C`. An `Option` of the
-- code is a `CommandOption`. The list of options and the map beside it are values: that they share what
-- they point to does not matter where no option is changed.
pub mod Values
pub mod Deliver
pub mod Legal
pub mod Accepted
pub mod Required
pub mod Refused
pub mod Options
pub mod Delivered
pub mod Create
pub mod Names
pub mod Delete
pub mod Taken
mod Tests
use harns.Prelude.{ℕ, Bool, Option, none, some, List}
use harns.Prelude.Int.{ℤ, pos, negsuc}
use harns.Prelude.Dict.{Dict}
use harns.Thing.{ObjectMeta}

pub data Datatype : Type 0 where
  string int double bool timestamp enum : Datatype

-- What an `interface{}` holds: what `encoding/json` makes, or an int64.
pub data Value (F C : Type 0) : Type 0 where
  null : Value F C
  boolean : Bool → Value F C
  number : F → Value F C
  integer : ℤ → Value F C
  text : List ℕ → Value F C
  composite : C → Value F C

pub record CommandOption (F C : Type 0) : Type 0 where
  pub name : List ℕ
  pub description : Option (List ℕ)
  pub required : Bool
  pub filterable : Bool
  pub datatype : Datatype
  pub values : List (List ℕ)
  pub default_value : Value F C
  pub minimum : Option F
  pub maximum : Option F

pub record CommandType (F C : Type 0) : Type 0 where
  pub meta : ObjectMeta
  pub type_id : List ℕ
  pub description : Option (List ℕ)
  pub ack : Bool
  pub user : List ℕ
  pub thing_type_id : List ℕ
  pub options : List (CommandOption F C)
  pub option_by_name : Dict (CommandOption F C)

pub data State : Type 0 where
  delivering delivered success fail : State

pub record Command (F C : Type 0) : Type 0 where
  pub seq : ℤ
  pub thing_id : List ℕ
  pub type_id : List ℕ
  pub time : ℕ
  pub state : State
  pub ack : Bool
  pub timeout : ℤ
  pub code : ℤ
  pub message : Option (List ℕ)
  pub options : Dict (Value F C)

-- What the code uses of float64, and of `%v` of a value. `at_most a b` is `a <= b`.
pub record Floats (F C : Type 0) : Type 0 where
  pub at_most : F → F → Bool
  pub to_int64 : F → ℤ
  pub least_float : F
  pub greatest_float : F
  pub format : Value F C → List ℕ

module _ {F C : Type 0} (fl : Floats F C) where
  -- `GetMinInt`
  unfoldable pub get_min_int : CommandOption F C → ℤ
  get_min_int o = elim o.minimum [
    | none ↦ negsuc 9223372036854775807
    | some least ↦ fl.to_int64 least
  ]

  -- `GetMaxInt`
  unfoldable pub get_max_int : CommandOption F C → ℤ
  get_max_int o = elim o.maximum [
    | none ↦ pos 9223372036854775807
    | some greatest ↦ fl.to_int64 greatest
  ]

  -- `GetMinFloat`
  unfoldable pub get_min_float : CommandOption F C → F
  get_min_float o = elim o.minimum [ none ↦ fl.least_float | some least ↦ least ]

  -- `GetMaxFloat`
  unfoldable pub get_max_float : CommandOption F C → F
  get_max_float o = elim o.maximum [ none ↦ fl.greatest_float | some greatest ↦ greatest ]
