-- ===== src/RealTime.antt =====
-- pkg/rule/runtime/types.go and action.go, and the state of pkg/data/realtimecomputation/rule.go: the
-- data of the rules that are evaluated on incoming data.
--
-- A parsed expression is of a type `E`, since the PromQL parser is not modelled. A duration is an integer
-- and a time a number, 0 for the zero time. The pointer to a `BaseAction` may be nil. A map of actions is
-- a list of pairs with distinct types, in the order in which it is visited.
pub mod Paths
pub mod Operands
pub mod Rules
pub mod Removal
pub mod Keys
pub mod Rounds
pub mod Collected
pub mod Events
pub mod Mentions
pub mod Effects
pub mod Handled
pub mod Process
mod Tests
use harns.Prelude.{ℕ, Bool, true, false, ltb, Option, none, some, List, [], ◌∷◌, if◌then◌else◌}
use harns.Prelude.Int.{ℤ, pos, negsuc}
use harns.Prelude.Dict.{Dict, load}
use harns.Thing.{ObjectMeta, Property}

pub data ActionType : Type 0 where
  virtual_parameter event email webhook wecom wechat : ActionType

pub record BaseAction : Type 0 where
  pub active : Bool
  pub interval : Option ℤ
  pub last_send_at : ℕ

pub record VirtualParameter : Type 0 where
  pub base_action : Option BaseAction
  pub thing_id : List ℕ
  pub property_set_name : List ℕ
  pub property : Property

pub record Event : Type 0 where
  pub base_action : Option BaseAction
  pub severity : ℤ
  pub description : List ℕ

pub record Webhook : Type 0 where
  pub base_action : Option BaseAction
  pub severity : ℤ
  pub description : List ℕ
  pub addresses : List (List ℕ)

pub record Notify : Type 0 where
  pub base_action : Option BaseAction
  pub severity : ℤ
  pub description : List ℕ
  pub addresses : List (List ℕ)

-- The implementations of `Actioner`.
pub data Actioner : Type 0 where
  by_virtual_parameter : VirtualParameter → Actioner
  by_event : Event → Actioner
  by_webhook : Webhook → Actioner
  by_notify : Notify → Actioner

abbrev pub Actions : Type 0
Actions = List (ActionType × Actioner)

pub record Evaluation : Type 0 where
  pub template : List ℕ
  pub expression : List ℕ

pub record Rule : Type 0 where
  pub meta : ObjectMeta
  pub description : Option (List ℕ)
  pub thing_id : List ℕ
  pub real_time : Bool
  pub active : Bool
  pub evaluations : List Evaluation
  pub actions : Actions

pub record Expression (E : Type 0) : Type 0 where
  pub rule_id : List ℕ
  pub rule_name : List ℕ
  pub expr : E
  pub properties : List (List ℕ)
  pub actions : Actions
  pub min_interval : ℤ
  pub evaluation_timestamp : ℕ

-- `struct{}{}`
pub data Present : Type 0 where
  present : Present

pub record Manager (E : Type 0) : Type 0 where
  pub rules : Dict (List (Expression E))
  pub enabled_rules : Dict Present

-- The embedded `BaseAction`.
abbrev pub base_of : Actioner → Option BaseAction
base_of (by_virtual_parameter a) = a.base_action
base_of (by_event a) = a.base_action
base_of (by_webhook a) = a.base_action
base_of (by_notify a) = a.base_action

unfoldable pub is_active : Option BaseAction → Bool
is_active none = false
is_active (some a) = a.active

-- `GetInterval`, which is called on actions that are not nil.
unfoldable pub get_interval : Option BaseAction → ℤ
get_interval none = pos 0
get_interval (some a) = elim a.interval [ none ↦ pos 0 | some i ↦ i ]

unfoldable pub has_active_action : Actions → Bool
unfolding is_active
has_active_action [] = false
has_active_action (a ∷ rest) = if is_active (base_of a.1) then true else has_active_action rest

abbrev pub virtual_parameter_of : Actions → Option Actioner
virtual_parameter_of [] = none
virtual_parameter_of (a ∷ rest) =
    let found = virtual_parameter_of rest in elim a.0 [ virtual_parameter ↦ some a.1 | _ ↦ found ]

-- `a < b`
abbrev pub ltb_int : ℤ → ℤ → Bool
ltb_int (pos a) (pos b) = ltb a b
ltb_int (pos a) (negsuc b) = false
ltb_int (negsuc a) (pos b) = true
ltb_int (negsuc a) (negsuc b) = ltb b a

-- The loop over the actions.
unfoldable pub least_interval : ℤ → Actions → ℤ
unfolding is_active get_interval
least_interval least [] = least
least_interval least (a ∷ rest) =
    let i = get_interval (base_of a.1) in
    least_interval
      (if is_active (base_of a.1) then (if ltb_int i least then i else least) else least) rest

-- `minInterval`: `MaxDuration` is the largest int64.
unfoldable pub min_interval_of : Actions → ℤ
unfolding is_active least_interval
min_interval_of actions =
    let least = least_interval (pos 9223372036854775807) actions in
    elim (virtual_parameter_of actions) [
      | none ↦ least
      | some vp ↦ if is_active (base_of vp) then pos 0 else least
    ]
