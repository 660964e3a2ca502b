-- ===== src/Control/Delivered.antt =====
-- pkg/control/command/deliver.go: every request gets an answer, and what a command holds.
use harns.Prelude.{
  ℕ, ◌≡◌, refl, Bool, false, ◌==◌, ◌&&◌, ◌⊎◌, inl, inr, Bool-cases, Option-cases, none, some, List,
  [], ◌∷◌, if◌then◌else◌,
}
use harns.Prelude.Int.{ℤ}
use harns.Prelude.Dict.{Dict, load}
use harns.Prelude.Outcome.{ok}
use harns.Thing.{Thing, ThingType}
use harns.Control.{Value, CommandType, Command, Floats, success, fail}
use harns.Control.Values.{
  DeliverError, thing_not_found, thing_type_not_found, command_type_not_found,
}
use harns.Control.Deliver.{
  Answer, failed, response, deliver_command, get_command_type_by_id, new_command, dispatch_cmd,
  is_zero,
}
use harns.Control.Refused.{IsRefused}
use harns.Control.Options.{HasOneEach, IsDelivered, options_of-cases}

-- The broker took the command: it answers 200 with an acknowledgement of code 0.
unfoldable pub is_acknowledged : Answer → Bool
is_acknowledged failed = false
is_acknowledged (response status none refused) = false
is_acknowledged (response status (some (code, message)) refused) = status == 200 && is_zero code

-- A command that was sent has succeeded if the broker answers 200 with an acknowledgement of code 0, and
-- has failed otherwise. Its options are as before.
pub dispatch_cmd-is_acknowledged :
    {F C : Type 0} (cmd : Command F C) (answer : Answer)
    → (Command.state (dispatch_cmd cmd answer) ≡ (if is_acknowledged answer then success else fail))
      × (Command.options (dispatch_cmd cmd answer) ≡ cmd.options)
unfolding dispatch_cmd is_acknowledged
dispatch_cmd-is_acknowledged cmd failed = (refl, refl)
dispatch_cmd-is_acknowledged cmd (response status none none) = elim (Bool-cases (status == 200)) [
  | inl q ↦ rw (dispatch_cmd, q) (refl, refl)
  | inr q ↦ rw (dispatch_cmd, q) (refl, refl)
]
dispatch_cmd-is_acknowledged cmd (response status none (some s)) =
    elim (Bool-cases (status == 200)) [
      | inl q ↦ rw (dispatch_cmd, q) (refl, refl)
      | inr q ↦ rw (dispatch_cmd, q) (refl, refl)
    ]
dispatch_cmd-is_acknowledged cmd (response status (some a) none) =
    elim (Bool-cases (status == 200)) [
      | inl q ↦ rw (dispatch_cmd, q) (refl, refl)
      | inr q ↦ rw (dispatch_cmd, q) (refl, refl)
    ]
dispatch_cmd-is_acknowledged cmd (response status (some a) (some s)) =
    elim (Bool-cases (status == 200)) [
      | inl q ↦ rw (dispatch_cmd, q) (refl, refl)
      | inr q ↦ rw (dispatch_cmd, q) (refl, refl)
    ]

module _ {F C : Type 0} (fl : Floats F C) (post : Command F C → Answer) (seq : ℤ) (now : ℕ) where
  -- Why a request gets errors: its thing, the thing type or the command type is not there, or the request
  -- is refused.
  abbrev pub IsFault :
      Dict Thing
      → Dict ThingType
      → Dict (CommandType F C)
      → List ℕ
      → List ℕ
      → Dict (Value F C)
      → Type 0
  IsFault things types cmd_types thing_id id obj =
      (load things thing_id ≡ none)
      ⊎ ((t : Thing) × (load things thing_id ≡ some t)
          × ((load types t.type_id ≡ none)
              ⊎ ((kind : ThingType) × (load types t.type_id ≡ some kind)
                  × ((get_command_type_by_id cmd_types kind.meta.id id ≡ none)
                      ⊎ ((ty : CommandType F C) × (get_command_type_by_id cmd_types kind.meta.id id
                            ≡ some ty)
                          × IsRefused fl ty obj)))))

  -- The answer to a request: an error at least, for a fault; or a command that was sent, with options as
  -- they may be delivered and the state that the data broker's answer to them gives.
  abbrev pub IsAnswered :
      Dict Thing
      → Dict ThingType
      → Dict (CommandType F C)
      → List ℕ
      → List ℕ
      → Dict (Value F C)
      → Type 0
  IsAnswered things types cmd_types thing_id id obj =
      ((e : DeliverError) × (es : List DeliverError) × (deliver_command fl post seq now things types
            cmd_types thing_id id obj
          ≡ ok (inl (e ∷ es)))
        × IsFault things types cmd_types thing_id id obj)
      ⊎ ((t : Thing) × (kind : ThingType) × (ty : CommandType F C) × (cmd : Command F C) × (load
              things thing_id
            ≡ some t)
          × (load types t.type_id ≡ some kind)
          × (get_command_type_by_id cmd_types kind.meta.id id ≡ some ty)
          × (deliver_command fl post seq now things types cmd_types thing_id id obj ≡ ok (inr cmd))
          × IsDelivered fl ty obj cmd.options
          × (cmd.state ≡ (
              if is_acknowledged (post (new_command seq now thing_id id cmd.options))
              then success
              else fail)))

  -- Let a request have one value for each of its names. Then `deliverCommand` gives errors, or sends a
  -- command. It gives errors only if the thing, its thing type or the command type is not there, or the
  -- request has a name that is no option, null for an option without a default, or a value that is not
  -- taken for its option. If it sends a command, the three are there, and a value of the command is
  -- either that of the request under its name, which is null if that is null and otherwise a value of the datatype that keeps the
  -- bounds and the values of the option; or the request does not have the name, and the value is the
  -- default of a required option, which is not checked and may be null. No name of the request and no required option
  -- is missing, and where the request has an option without a default, the value is not null. The state
  -- of the command is success if the data broker acknowledges it with code 0, and fail otherwise.
  pub deliver_command-IsDelivered :
      (things : Dict Thing) (types : Dict ThingType) (cmd_types : Dict (CommandType F C))
      (thing_id id : List ℕ) (obj : Dict (Value F C))
      → HasOneEach obj
      → IsAnswered things types cmd_types thing_id id obj
  unfolding deliver_command
  deliver_command-IsDelivered things types cmd_types thing_id id obj one =
      elim (Option-cases (load things thing_id)) [
        | inl l ↦ inl (thing_not_found thing_id, [], rw (deliver_command, l) refl, inl l)
        | inr (t, l) ↦ elim (Option-cases (load types t.type_id)) [
          | inl k ↦ inl (
            thing_type_not_found t.type_id,
            [],
            rw (deliver_command, l, k) refl,
            inr (t, l, inl k),
          )
          | inr (kind, k) ↦ elim (Option-cases (get_command_type_by_id cmd_types kind.meta.id id)) [
            | inl c ↦ inl (
              command_type_not_found id,
              [],
              rw (deliver_command, l, k, c) refl,
              inr (t, l, inr (kind, k, inl c)),
            )
            | inr (ty, c) ↦ elim (options_of-cases fl ty obj one) [
              | inl (e, es, run, why) ↦ inl (
                e,
                es,
                rw (deliver_command, l, k, c, run) refl,
                inr (t, l, inr (kind, k, inr (ty, c, why))),
              )
              | inr (options, run, delivered) ↦
                  let sent = new_command seq now thing_id id options in
                  let (state, same) = dispatch_cmd-is_acknowledged sent (post sent) in
                  inr (
                    t,
                    kind,
                    ty,
                    dispatch_cmd sent (post sent),
                    l,
                    k,
                    c,
                    rw (deliver_command, l, k, c, run) refl,
                    rw same delivered,
                    rw same state,
                  )
            ]
          ]
        ]
      ]
