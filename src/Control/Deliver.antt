-- ===== src/Control/Deliver.antt =====
-- pkg/control/command/deliver.go: `deliverCommand` and `dispatchCmd`; and `getCommandTypeById` with
-- `explodedCmdType` of manager.go.
use harns.Prelude.{
  ℕ, Bool, false, ◌⊎◌, inl, inr, Option, none, some, List, [], ◌∷◌, ◌++◌, ◌==◌, if◌then◌else◌,
}
use harns.Prelude.Int.{ℤ, pos, negsuc}
use harns.Prelude.Dict.{Dict, load}
use harns.Prelude.Outcome.{Outcome, ok, ◌>>=◌}
use harns.Thing.{Thing, ThingType}
use harns.Control.{Value, CommandOption, CommandType, Command, Floats, delivering, success, fail}
use harns.Control.Values.{
  DeliverError, thing_not_found, thing_type_not_found, command_type_not_found,
  command_option_not_found, command_option_value_missed, unknown_names, missed_names,
  required_options, fill, legal_options,
}

-- What the data broker answers: nothing, or a response with its status, the acknowledgement in its body
-- and the errors in its body, where the body can be read as one.
pub data Answer : Type 0 where
  failed : Answer
  response : ℕ → Option (ℤ × Option (List ℕ)) → Option (List ℕ) → Answer

abbrev pub is_zero : ℤ → Bool
is_zero (pos n) = n == 0
is_zero (negsuc n) = false

-- The error for the names, if there are any.
abbrev pub reported : (List (List ℕ) → DeliverError) → List (List ℕ) → List DeliverError
reported error [] = []
reported error (n ∷ ns) = error (n ∷ ns) ∷ []

module _ {F C : Type 0} where
  -- `explodedCmdType`: the options are those of the map, the inherited ones included.
  abbrev pub mapped_options : Dict (CommandOption F C) → List (CommandOption F C)
  mapped_options [] = []
  mapped_options (entry ∷ entries) = entry.1 ∷ mapped_options entries

  unfoldable pub exploded_cmd_type : CommandType F C → CommandType F C
  exploded_cmd_type ty = record ty { ack = false; options = mapped_options ty.option_by_name }

  -- `getCommandTypeById`, exploded
  unfoldable pub get_command_type_by_id :
      Dict (CommandType F C) → List ℕ → List ℕ → Option (CommandType F C)
  unfolding exploded_cmd_type
  get_command_type_by_id cmd_types thing_type_id id =
      elim (load cmd_types (thing_type_id ++ b'.' ∷ id)) [
        | none ↦ none
        | some ty ↦ some (exploded_cmd_type ty)
      ]

  -- `dispatchCmd`, on the answer to the command
  unfoldable pub dispatch_cmd : Command F C → Answer → Command F C
  dispatch_cmd cmd failed = record cmd { state = fail }
  dispatch_cmd cmd (response status ack message) =
      if status == 200
      then elim ack [
        | none ↦ record cmd { state = fail }
        | some (code, text_of) ↦ record cmd {
          code = code;
          message = text_of;
          state = if is_zero code then success else fail;
        }
      ]
      else elim message [
        | none ↦ record cmd { state = fail }
        | some s ↦ record cmd { state = fail; message = some s }
      ]

  -- `cmd`, before it is sent
  unfoldable pub new_command : ℤ → ℕ → List ℕ → List ℕ → Dict (Value F C) → Command F C
  new_command seq now thing_id type_id options = record {
    seq = seq;
    thing_id = thing_id;
    type_id = type_id;
    time = now;
    state = delivering;
    ack = false;
    timeout = pos 0;
    code = pos 0;
    message = none;
    options = options;
  }

  -- The errors before the values are looked at.
  unfoldable pub early_errors : CommandType F C → Dict (Value F C) → List DeliverError
  unfolding unknown_names missed_names
  early_errors ty obj =
      let unknown = unknown_names ty.option_by_name obj in
      let missed = missed_names ty.options obj in
      reported command_option_not_found unknown ++ reported command_option_value_missed missed

  -- The options of a command, or the errors of the request.
  unfoldable pub options_of :
      Floats F C
      → CommandType F C
      → Dict (Value F C)
      → Outcome (List DeliverError ⊎ Dict (Value F C))
  unfolding early_errors legal_options required_options fill
  options_of fl ty obj = elim (early_errors ty obj) [
    | e ∷ es ↦ ok (inl (e ∷ es))
    | [] ↦ legal_options fl ty.option_by_name obj ([], []) >>= (λ (errs, legal). ok (elim errs [
      | e ∷ es ↦ inl (e ∷ es)
      | [] ↦ inr (fill (required_options ty.options []) legal)
    ]))
  ]

  -- `deliverCommand`: the errors, or the command as the log storage gets it. `post` is the data broker.
  unfoldable pub deliver_command :
      Floats F C
      → (Command F C → Answer)
      → ℤ
      → ℕ
      → Dict Thing
      → Dict ThingType
      → Dict (CommandType F C)
      → List ℕ
      → List ℕ
      → Dict (Value F C)
      → Outcome (List DeliverError ⊎ Command F C)
  unfolding get_command_type_by_id options_of new_command dispatch_cmd
  deliver_command fl post seq now things types cmd_types thing_id id obj =
      elim (load things thing_id) [
        | none ↦ ok (inl (thing_not_found thing_id ∷ []))
        | some t ↦ elim (load types t.type_id) [
          | none ↦ ok (inl (thing_type_not_found t.type_id ∷ []))
          | some kind ↦ elim (get_command_type_by_id cmd_types kind.meta.id id) [
            | none ↦ ok (inl (command_type_not_found id ∷ []))
            | some ty ↦ options_of fl ty obj >>= (λ found. ok (elim found [
              | inl errs ↦ inl errs
              | inr options ↦
                  let cmd = new_command seq now thing_id id options in
                  inr (dispatch_cmd cmd (post cmd))
            ]))
          ]
        ]
      ]
