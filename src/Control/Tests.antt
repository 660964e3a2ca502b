-- ===== src/Control/Tests.antt =====
-- Runs of the creation of a command type and of the delivery of commands, and the theorems there.
use mathlib.Core.List.{Memᴰ}
use mathlib.Core.Path.{subst}
use harns.Prelude.{
  ◌⊎◌, ℕ, ◌≡◌, refl, sym, some-inj, true, false, leb, inl, inr, Option, none, some, List, [], ◌∷◌,
  map, if◌then◌else◌,
}
use harns.Prelude.Int.{pos}
use harns.Prelude.Bytes.{eq_bytes_self}
use harns.Prelude.Dict.{Dict, load}
use harns.Prelude.Outcome.{ok}
use harns.Thing.{Thing, ThingType}
use harns.Thing.Types.{base_agent, get_root_thing_type, climb}
use harns.Thing.Filter.{has_prefix, get_thing_types, collect, parse_type_filter, name_predicates}
use harns.Thing.Sorter.{insert, sort_search}
use harns.Control.{
  Datatype, Value, CommandOption, CommandType, Command, Floats, null, number, integer, success,
  fail, get_min_int, get_max_int,
}
use harns.Control.Values.{
  integer_invalid, unknown_names, missed_names, required_options, fill, legal_options, legal_value,
  legal_by, legal_int,
}
use harns.Control.Deliver.{
  Answer, response, deliver_command, options_of, early_errors, get_command_type_by_id,
  exploded_cmd_type, dispatch_cmd, new_command,
}
use harns.Control.Options.{HasOneEach}
use harns.Control.Delivered.{
  IsAnswered, is_acknowledged, deliver_command-IsDelivered, dispatch_cmd-is_acknowledged,
}
use harns.Control.Create.{
  command_option_exists, NewCommandType, CreateEnv, created, create_command_type,
  blank_command_type, add_options, new_option, parent_command_type, save_command_type,
  get_child_thing_type, add_children, derive, has_option,
}
use harns.Control.Names.{create_command_type-IsDistinct, option_names}
use harns.Control.Taken.{IsTaken, add_options-IsDistinct}
use harns.Control.Delete.{
  Commands, IsDeleted, delete_command_types, sweep, load-delete_command_types, delete_command_type,
  delete_command_type-IsDeleted,
}
use harns.RealTime.Keys.{IsDistinct}

-- Natural numbers in the place of float64.
abbrev naturals : Floats ℕ ℕ
naturals = record {
  at_most = leb;
  to_int64 = λ n. pos n;
  least_float = 0;
  greatest_float = 1000000;
  format = λ v. [];
}

-- A required number up to 5, with a default.
abbrev speed : CommandOption ℕ ℕ
speed = record {
  name = b's' ∷ [];
  description = none;
  required = true;
  filterable = false;
  datatype = Datatype.int;
  values = [];
  default_value = number 1;
  minimum = none;
  maximum = some 5;
}

abbrev id_d : List ℕ
id_d = b'd' ∷ []

abbrev type_of : List ℕ → List ℕ → ThingType
type_of id parent = record {
  meta = record { tenant = b'm' ∷ []; name = id; id = id; version = b'1' ∷ []; mod_time = 5 };
  description = none;
  parent_type_id = parent;
  instantiable = some true;
  characteristics = [];
  property_sets = [];
  characteristic_by_name = [];
  property_set_by_name = [];
}

abbrev types : Dict ThingType
types = (id_d, type_of id_d base_agent) ∷ (base_agent, type_of base_agent []) ∷ []

abbrev thing : Thing
thing = record {
  meta = record { tenant = b'm' ∷ []; name = []; id = b'1' ∷ []; version = []; mod_time = 5 };
  description = none;
  type_id = id_d;
  parent = none;
  time_zone = none;
  characteristics = [];
  characteristic_by_name = [];
  property_set_by_name = [];
}

abbrev things : Dict Thing
things = (b'1' ∷ [], thing) ∷ []

abbrev env : CreateEnv ℕ ℕ
env = record {
  tenant = b'm' ∷ [];
  uuid = b'u' ∷ [];
  version = b'1' ∷ [];
  now = 7;
  save = λ x. some x;
}

abbrev request : NewCommandType ℕ ℕ
request = record { name = b'g' ∷ []; description = none; ack = true; options = speed ∷ [] }

abbrev go : CommandType ℕ ℕ
go = record {
  meta = record {
    tenant = b'm' ∷ [];
    name = b'g' ∷ [];
    id = b'u' ∷ [];
    version = b'1' ∷ [];
    mod_time = 7;
  };
  type_id = b'm' ∷ b'.' ∷ b'g' ∷ [];
  description = none;
  ack = true;
  user = [];
  thing_type_id = id_d;
  options = record speed { filterable = true } ∷ [];
  option_by_name = (b's' ∷ [], record speed { filterable = true }) ∷ [];
}

abbrev cmd_types : Dict (CommandType ℕ ℕ)
cmd_types = (b'd' ∷ b'.' ∷ b'm' ∷ b'.' ∷ b'g' ∷ [], go) ∷ []

-- The option is filterable since it is required.
create_run : create_command_type 5 env types [] id_d request ≡ created cmd_types go
unfolding create_command_type get_root_thing_type climb parent_command_type get_command_type_by_id
    add_options new_option blank_command_type save_command_type get_child_thing_type add_children
    derive get_thing_types collect insert sort_search parse_type_filter name_predicates
create_run = refl

create_command_type-IsDistinct_run :
    (go.options ≡ map new_option request.options)
    × IsDistinct (option_names go.options)
    × ((pct : Option (CommandType ℕ ℕ)) × (parent_command_type 5 types []
            (b'm' ∷ b'.' ∷ b'g' ∷ [])
            base_agent
          ≡ some (inr pct))
        × ((o : CommandOption ℕ ℕ) → Memᴰ o request.options → has_option pct o.name ≡ false))
create_command_type-IsDistinct_run =
    create_command_type-IsDistinct 5 env types [] cmd_types id_d request (type_of id_d base_agent)
      go (λ x y h. sym (some-inj h)) refl create_run

abbrev acknowledge : Command ℕ ℕ → Answer
acknowledge cmd = response 200 (some (pos 0, none)) none

abbrev cmd_id : List ℕ
cmd_id = b'm' ∷ b'.' ∷ b'g' ∷ []

abbrev Delivers : Dict (Value ℕ ℕ) → Type 0
Delivers obj =
    IsAnswered naturals acknowledge (pos 1) 9 things types cmd_types (b'1' ∷ []) cmd_id obj

deliver_run :
    deliver_command naturals acknowledge
      (pos 1)
      9
      things
      types
      cmd_types
      (b'1' ∷ [])
      cmd_id
      ((b's' ∷ [], number 3) ∷ [])
    ≡ ok (
        inr (
          dispatch_cmd
            (new_command (pos 1) 9 (b'1' ∷ []) cmd_id ((b's' ∷ [], integer (pos 3)) ∷ []))
            (response 200 (some (pos 0, none)) none)))
unfolding deliver_command get_command_type_by_id exploded_cmd_type options_of early_errors
    unknown_names missed_names required_options fill legal_options legal_value legal_by legal_int
    get_min_int get_max_int
deliver_run = refl

-- Out of its range.
refuse_run :
    deliver_command naturals acknowledge
      (pos 1)
      9
      things
      types
      cmd_types
      (b'1' ∷ [])
      cmd_id
      ((b's' ∷ [], number 6) ∷ [])
    ≡ ok (inl (integer_invalid (b's' ∷ []) true ∷ []))
unfolding deliver_command get_command_type_by_id exploded_cmd_type options_of early_errors
    unknown_names missed_names required_options fill legal_options legal_value legal_by legal_int
    get_min_int get_max_int
refuse_run = refl

-- A required option that is given as null stays null, although it has a default.
null_run : options_of naturals go ((b's' ∷ [], null) ∷ []) ≡ ok (inr ((b's' ∷ [], null) ∷ []))
unfolding options_of early_errors unknown_names missed_names required_options fill legal_options
    legal_value
null_run = refl

-- A required option without a default that the request does not have is sent as null.
missing_run :
    options_of naturals (record go { options = record speed { default_value = null } ∷ [] }) []
    ≡ ok (inr ((b's' ∷ [], null) ∷ []))
unfolding options_of early_errors unknown_names missed_names required_options fill legal_options
    legal_value
missing_run = refl

one_each : HasOneEach {F = ℕ} {C = ℕ} ((b's' ∷ [], number 3) ∷ [])
one_each k u (Memᴰ.head e) =
    subst (λ (r : List ℕ × Value ℕ ℕ). load (r ∷ []) k ≡ some u) e (rw (eq_bytes_self k) refl)
one_each k u (Memᴰ.tail m) = elim m [ ]

deliver_command-IsDelivered_example : Delivers ((b's' ∷ [], number 3) ∷ [])
deliver_command-IsDelivered_example =
    deliver_command-IsDelivered naturals acknowledge (pos 1) 9 things types cmd_types (b'1' ∷ [])
      cmd_id ((b's' ∷ [], number 3) ∷ []) one_each

abbrev sent : Command ℕ ℕ
sent = new_command (pos 1) 9 (b'1' ∷ []) cmd_id ((b's' ∷ [], integer (pos 3)) ∷ [])

dispatch_cmd-is_acknowledged_run :
    (Command.state (dispatch_cmd sent (response 200 (some (pos 4, none)) none))
      ≡ (if is_acknowledged (response 200 (some (pos 4, none)) none) then success else fail))
    × (Command.options (dispatch_cmd sent (response 200 (some (pos 4, none)) none)) ≡ sent.options)
dispatch_cmd-is_acknowledged_run =
    dispatch_cmd-is_acknowledged sent (response 200 (some (pos 4, none)) none)

abbrev commands : Commands ℕ ℕ
commands = record {
  cmd_types =
      (b'd' ∷ b'x' ∷ b'.' ∷ cmd_id, record go { thing_type_id = b'd' ∷ b'x' ∷ [] }) ∷ cmd_types;
  jobs = [];
}

-- The command types of the thing type `dx` go with those of `d`.
delete_prefix_run :
    delete_command_types id_d commands
    ≡ record { cmd_types = []; jobs = (b'u' ∷ []) ∷ (b'u' ∷ []) ∷ [] }
unfolding delete_command_types sweep
delete_prefix_run = refl

load-delete_command_types_example :
    load (Commands.cmd_types (delete_command_types id_d commands)) (b'd' ∷ b'x' ∷ b'.' ∷ cmd_id) ≡ (
      if has_prefix (b'd' ∷ b'x' ∷ b'.' ∷ cmd_id) id_d
      then none
      else load commands.cmd_types (b'd' ∷ b'x' ∷ b'.' ∷ cmd_id))
load-delete_command_types_example =
    load-delete_command_types id_d commands (b'd' ∷ b'x' ∷ b'.' ∷ cmd_id)

delete_command_type-IsDeleted_example :
    IsDeleted
      (λ x. false)
      (b'm' ∷ [])
      types
      commands
      id_d
      cmd_id
      (b'1' ∷ [])
      (delete_command_type (λ x. false) (b'm' ∷ []) types commands id_d cmd_id (b'1' ∷ []))
delete_command_type-IsDeleted_example =
    delete_command_type-IsDeleted (λ x. false) (b'm' ∷ []) types commands id_d cmd_id (b'1' ∷ [])

abbrev request_twice : NewCommandType ℕ ℕ
request_twice = record request { options = speed ∷ speed ∷ [] }

add_options-IsDistinct_example :
    IsTaken (some go) request.options (blank_command_type env id_d cmd_id request)
    ⊎ ((rct : CommandType ℕ ℕ) × (add_options
            (some go)
            request.options
            (blank_command_type env id_d cmd_id request)
          ≡ inr rct)
        × (rct.options ≡ map new_option request.options)
        × IsDistinct (option_names rct.options)
        × ((o : CommandOption ℕ ℕ) → Memᴰ o request.options → has_option (some go) o.name ≡ false))
add_options-IsDistinct_example = add_options-IsDistinct (some go) env id_d cmd_id request

-- A name that the request has twice, without a command type above.
twice_run :
    add_options none request_twice.options (blank_command_type env id_d cmd_id request_twice)
    ≡ inl (command_option_exists (b's' ∷ []))
unfolding add_options new_option blank_command_type
twice_run = refl
