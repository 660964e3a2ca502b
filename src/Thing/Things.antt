-- ===== src/Thing/Things.antt =====
-- pkg/model/thing/manager.go, rest.go and defaults.go, and pkg/model/validation/validation.go: the
-- operations on things.
--
-- `update` works on a copy of the thing that is stored, as `REST.Update` does. A walk that has no bound
-- in the code runs on fuel here, and `endless` says that the fuel is used up.
use harns.Prelude.{
  ℕ, zero, suc, Bool, true, false, ◌&&◌, ◌||◌, not, Option, none, some, List, [], ◌∷◌, ◌++◌,
  if◌then◌else◌,
}
use harns.Prelude.Bytes.{eq_bytes}
use harns.Prelude.Dict.{Dict, load, has_key, store, delete}
use harns.Thing.{
  Thing, ThingType, NewThing, NewValue, Result, done, failed, panic, ◌>>=◌, endless, internal,
  not_exist, mismatch, thing_type_not_found, thing_type_not_instantiable, time_zone_invalid,
  characteristic_not_found, parent_type_not_found,
}
use harns.Thing.Types.{is_empty, trim_space}
use harns.Thing.Inherit.{inherit_characteristic_and_property_set}
use harns.Thing.Filter.{ThingFilter, any, get_things}

-- The surroundings of one call; `has_location` says whether `time.LoadLocation` knows a name, and
-- `save` and `remove` are what the store answers.
pub record ThingEnv : Type 0 where
  pub tenant : List ℕ
  pub version : List ℕ
  pub now : ℕ
  pub uuid : List ℕ
  pub has_location : List ℕ → Bool
  pub save : Thing → Option Thing
  pub remove : List ℕ → List ℕ → Bool
  pub order : Dict ℕ → Dict ℕ

-- `GetThingById`
abbrev pub get_thing_by_id : Dict Thing → List ℕ → Result Thing
get_thing_by_id things id = elim (load things id) [ none ↦ failed not_exist | some t ↦ done t ]

-- "Asia/Shanghai"
abbrev pub shanghai : List ℕ
shanghai =
    b'A' ∷ b's' ∷ b'i' ∷ b'a' ∷ b'/' ∷ b'S' ∷ b'h' ∷ b'a' ∷ b'n' ∷ b'g' ∷ b'h' ∷ b'a' ∷ b'i' ∷ []

-- `SetDefaults_Thing`
abbrev pub set_defaults_thing : Thing → Thing
set_defaults_thing t = record t {
  time_zone = elim t.time_zone [ none ↦ some shanghai | some z ↦ some z ];
}

-- `time.LoadLocation`, where a name is given.
abbrev pub load_location : ThingEnv → Option (List ℕ) → Result (Option (List ℕ))
load_location env zone = elim zone [
  | none ↦ done none
  | some z ↦ if env.has_location z then done (some z) else failed time_zone_invalid
]

-- The loop of `CreateThing` over the characteristics.
unfoldable pub add_values : Thing → List NewValue → Result Thing
add_values t [] = done t
add_values t (c ∷ cs) =
    let rest =
      add_values
        (record t {
          characteristics =
              t.characteristics
              ++ record {
                name = c.name;
                value = c.value;
                definition = load t.characteristic_by_name c.name;
              }
                ∷ [];
        })
        cs in
    if has_key t.characteristic_by_name c.name then rest else failed characteristic_not_found

-- The identifier of the thing that a pointer leads to, nil where there is none.
abbrev pub pointer_to : Dict Thing → List ℕ → Option (List ℕ)
pointer_to things id = elim (load things id) [ none ↦ none | some t ↦ some t.meta.id ]

abbrev pub blank_thing : ThingEnv → Dict Thing → NewThing → ThingType → Option (List ℕ) → Thing
blank_thing env things obj ty zone = set_defaults_thing (record {
  meta = record {
    tenant = env.tenant;
    name = trim_space obj.name;
    id = env.uuid;
    version = env.version;
    mod_time = env.now;
  };
  description = obj.description;
  type_id = ty.meta.id;
  parent = pointer_to things obj.parent_id;
  time_zone = zone;
  characteristics = [];
  characteristic_by_name = [];
  property_set_by_name = [];
})

abbrev pub inherit : ℕ → Dict ThingType → Thing → Result Thing
inherit fuel types t = elim (inherit_characteristic_and_property_set fuel types t) [
  | none ↦ failed endless
  | some t' ↦ done t'
]

abbrev pub save_thing : ThingEnv → Dict Thing → Thing → Result (Dict Thing × Thing)
save_thing env things t = elim (env.save t) [
  | none ↦ failed internal
  | some saved ↦ done (store things t.meta.id saved, t)
]

-- `CreateThing`
unfoldable pub create_thing :
    ℕ → ThingEnv → Dict ThingType → Dict Thing → NewThing → Result (Dict Thing × Thing)
unfolding add_values
create_thing fuel env types things obj = elim (load types obj.type_id) [
  | none ↦ failed thing_type_not_found
  | some ty ↦ elim ty.instantiable [
    | none ↦ panic
    | some b ↦
        if not b
        then failed thing_type_not_instantiable
        else if not (is_empty obj.parent_id) && not (has_key things obj.parent_id)
        then failed parent_type_not_found
        else load_location env obj.time_zone >>= λ zone.
            inherit fuel types (blank_thing env things obj ty zone) >>= λ t.
            add_values t obj.characteristics >>= save_thing env things
  ]
]

-- `&thingFilter{ParentId: id}`
abbrev pub children_of : List ℕ → ThingFilter
children_of id = record { tenant = []; id = []; type_id = []; parent_id = id; name = any }

-- `deleteThing`, but for what it does to the jobs and the agent of the thing, and for its children.
unfoldable pub delete_thing : ThingEnv → Dict Thing → List ℕ → List ℕ → Result (Dict Thing × Thing)
delete_thing env things id version = elim (load things id) [
  | none ↦ failed not_exist
  | some t ↦
      if not (eq_bytes t.meta.version version)
      then failed mismatch
      else if not (env.remove id version)
      then failed internal
      else done (delete things id, t)
]

-- A round of the loop that `deleteThing` starts for a child: the thing that is stored loses its parent
-- even where the store fails.
abbrev pub orphan : ThingEnv → Dict Thing → Thing → Dict Thing
orphan env things t =
    let alone : Thing = record t { parent = none } in
    elim (env.save alone) [
      | none ↦ store things t.meta.id alone
      | some saved ↦
          store things t.meta.id (record saved { meta = record saved.meta { mod_time = env.now } })
    ]

-- A round for each of the children.
abbrev pub orphan_all : ThingEnv → Dict Thing → List Thing → Dict Thing
orphan_all env things [] = things
orphan_all env things (t ∷ ts) = orphan_all env (orphan env things t) ts

abbrev pub is_id_of : List Thing → List ℕ → Bool
is_id_of [] id = false
is_id_of (t ∷ ts) id = eq_bytes t.meta.id id || is_id_of ts id

-- The children of all the things of a list.
abbrev pub children_of_all : List ℕ → Dict Thing → List Thing → List Thing
children_of_all tenant things [] = []
children_of_all tenant things (t ∷ ts) =
    get_things tenant things (children_of t.meta.id) ++ children_of_all tenant things ts

-- The loop of `isMyChildThing`, a round for each generation; `none` where the fuel runs out.
unfoldable pub is_below : ℕ → List ℕ → Dict Thing → List Thing → List ℕ → Option Bool
is_below zero tenant things children id = none
is_below (suc n) tenant things [] id = some false
is_below (suc n) tenant things (c ∷ cs) id =
    let next = is_below n tenant things (children_of_all tenant things (c ∷ cs)) id in
    if is_id_of (c ∷ cs) id then some true else next

-- `isMyChildThing`
unfoldable pub is_my_child_thing : ℕ → List ℕ → Dict Thing → List ℕ → List ℕ → Option Bool
unfolding is_below
is_my_child_thing fuel tenant things my_self id =
    is_below fuel tenant things (get_things tenant things (children_of my_self)) id
