-- ===== src/Thing/Update.antt =====
-- pkg/model/thing/manager.go, pkg/model/thing/rest.go and pkg/model/validation/validation.go: the update
-- of a thing.
use harns.Prelude.{
  ℕ, Bool, false, ◌||◌, not, none, some, List, [], ◌∷◌, ◌++◌, if◌then◌else◌, take, set,
}
use harns.Prelude.Bytes.{eq_bytes}
use harns.Prelude.Dict.{Dict, load, has_key, store}
use harns.Generic.{Split, difference_and_intersection_objects}
use harns.Thing.{
  Thing, Value, NewThing, NewValue, Characteristic, Result, done, failed, panic, ◌>>=◌, endless,
  not_exist, mismatch, characteristic_not_found, cycled_thing, invalid_parent, immutable_field,
  parent_type_not_found, store_error,
}
use harns.Thing.Types.{is_empty}
use harns.Thing.Things.{ThingEnv, load_location, is_my_child_thing}

-- The loop that asks for every characteristic of the request.
unfoldable pub check_characteristics : Thing → List NewValue → Result Thing
check_characteristics t [] = done t
check_characteristics t (c ∷ cs) =
    let rest = check_characteristics t cs in
    if has_key t.characteristic_by_name c.name then rest else failed characteristic_not_found

-- The parent that the request names, where it is another one.
abbrev pub move_parent : ℕ → ThingEnv → Dict Thing → NewThing → Thing → Result Thing
move_parent fuel env things obj old =
    if is_empty obj.parent_id
    then done (record old { parent = none })
    else elim (load things obj.parent_id) [
      | none ↦ failed parent_type_not_found
      | some parent ↦ elim (is_my_child_thing fuel env.tenant things old.meta.id obj.parent_id) [
        | none ↦ failed endless
        | some below ↦
            if below
            then failed cycled_thing
            else done (record old { parent = some parent.meta.id })
      ]
    ]

unfoldable pub update_parent : ℕ → ThingEnv → Dict Thing → NewThing → Thing → Result Thing
update_parent fuel env things obj old = elim old.parent [
  | none ↦ move_parent fuel env things obj old
  | some p ↦ if eq_bytes obj.parent_id p then done old else move_parent fuel env things obj old
]

abbrev pub is_listed : List (List ℕ) → List ℕ → Bool
is_listed [] k = false
is_listed (x ∷ xs) k = eq_bytes x k || is_listed xs k

-- The loop that deletes, over what the range still has to visit: it writes each value that stays to
-- index `i`, which no round changes.
unfoldable pub write_kept : List (List ℕ) → ℕ → List Value → List Value → List Value
write_kept del i all [] = all
write_kept del i all (c ∷ cs) =
    write_kept del i (if is_listed del c.name then all else set all i c) cs

unfoldable pub delete_values : List (List ℕ) → List Value → List Value
unfolding write_kept
delete_values del all = take 0 (write_kept del 0 all all)

abbrev pub has_value : List Value → List ℕ → Bool
has_value [] name = false
has_value (v ∷ vs) name = eq_bytes name v.name || has_value vs name

-- The loop that inserts. Where the name is there it writes to the copy that the range made, and nothing
-- is changed.
unfoldable pub upsert_values : Dict Characteristic → List Value → List NewValue → List Value
upsert_values defs vs [] = vs
upsert_values defs vs (nc ∷ ncs) =
    upsert_values defs
      (if has_value vs nc.name
        then vs
        else vs ++ record { name = nc.name; value = nc.value; definition = load defs nc.name } ∷ [])
      ncs

abbrev pub update_values : ThingEnv → NewThing → Thing → Thing
update_values env obj old =
    let del = Split.only_src (
      difference_and_intersection_objects env.order old.characteristics obj.characteristics
        (λ (v : Value). v.name) (λ (c : NewValue). c.name)) in
    record old {
      characteristics =
          upsert_values old.characteristic_by_name (delete_values del old.characteristics)
            obj.characteristics;
    }

-- `updateCachedThing`
abbrev pub update_cached_thing : Thing → Thing → Thing
update_cached_thing new old = record old {
  meta = record old.meta { version = new.meta.version; mod_time = new.meta.mod_time };
  description = new.description;
  time_zone = new.time_zone;
  parent = new.parent;
  characteristics = new.characteristics;
}

abbrev pub save_update : ThingEnv → Dict Thing → List ℕ → Thing → Result (Dict Thing × Thing)
save_update env things id changed = elim (env.save changed) [
  | none ↦ failed store_error
  | some saved ↦ elim (load things id) [
    | none ↦ panic
    | some t ↦ done (store things id (update_cached_thing saved t), update_cached_thing saved t)
  ]
]

-- The time zone of the request, if it has one.
abbrev pub update_time_zone : ThingEnv → NewThing → Thing → Result Thing
update_time_zone env obj old = load_location env obj.time_zone >>= λ zone. elim zone [
  | none ↦ done old
  | some z ↦ done (record old { time_zone = some z })
]

-- `updateThing` on a copy of the thing.
unfoldable pub update_thing :
    ℕ → ThingEnv → Dict Thing → List ℕ → List ℕ → NewThing → Thing → Result (Dict Thing × Thing)
unfolding check_characteristics update_parent delete_values upsert_values
update_thing fuel env things id version obj old =
    if not (eq_bytes version old.meta.version)
    then failed mismatch
    else update_time_zone env obj (record old {
      meta = record old.meta { mod_time = env.now };
      description = obj.description;
    })
      >>= λ zoned. check_characteristics zoned obj.characteristics >>= λ checked.
          update_parent fuel env things obj checked >>= λ moved.
          save_update env things id (update_values env obj moved)

-- `ValidateThingUpdate`; the first of its errors.
abbrev pub validate_thing_update : NewThing → Thing → Result Thing
validate_thing_update obj old =
    if not (eq_bytes obj.type_id old.type_id)
    then failed immutable_field
    else if eq_bytes obj.parent_id old.meta.id
    then failed invalid_parent
    else done old

-- `Update` of the REST interface.
unfoldable pub update :
    ℕ → ThingEnv → Dict Thing → List ℕ → List ℕ → NewThing → Result (Dict Thing × Thing)
unfolding update_thing
update fuel env things id version obj = elim (load things id) [
  | none ↦ failed not_exist
  | some t ↦ validate_thing_update obj t >>= update_thing fuel env things id version obj
]
