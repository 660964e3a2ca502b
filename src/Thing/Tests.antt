-- ===== src/Thing/Tests.antt =====
-- Runs of the thing model: two thing types, the second below the first, and two things.
use mathlib.Core.Path.{subst}
use harns.Prelude.{
  ℕ, suc, ◌≡◌, refl, sym, ap, inl, inr, true, none, some, some-inj, none-ne-some, List, [], ◌∷◌,
  length, Bool-cases,
}
use harns.Prelude.Int.{pos}
use harns.Prelude.Bytes.{eq_bytes}
use harns.Prelude.Dict.{Dict, load}
use harns.Thing.{Characteristic, ThingType, NewThingType, Thing, done, string}
use harns.Thing.Types.{
  Env, is_empty, create_thing_type, delete_thing_type, get_root_thing_type, add_characteristics,
  add_property_sets, trim_space, has_child_thing_type,
}
use harns.Thing.Forest.{IsForest, IsSaving, create_thing_type-IsForest, delete_thing_type-IsForest}
use harns.Thing.Forest
use harns.Thing.Lineage.{IsLine, last_of, get_root_thing_type-total}
use harns.Thing.Inherit.{explode_thing_type, inherit_characteristic_and_property_set}
use harns.Thing.Nearest.{nearest_characteristic, nearest_property_set}
use harns.Thing.Walks.{IsIndexed, explode_thing_type-nearest, inherit-explode}
use harns.Thing.Reindex.{index_characteristics, index_characteristics-create_thing_type}

abbrev pub main : List ℕ
main = b'm' ∷ []

-- "m.A"
abbrev id_a : List ℕ
id_a = b'm' ∷ b'.' ∷ b'A' ∷ []

-- "m.B"
abbrev pub id_b : List ℕ
id_b = b'm' ∷ b'.' ∷ b'B' ∷ []

abbrev pub colour : Characteristic
colour = record {
  name = b'c' ∷ [];
  unit = [];
  length_of_text = pos 8;
  data_type = string;
  default_value = b'r' ∷ [];
  searchable = true;
}

abbrev type_env : Env
type_env = record {
  tenant = main;
  version = b'1' ∷ [];
  now = 5;
  uuid = λ i. b'u' ∷ i ∷ [];
  property_set_type_by_id = λ id. none;
  save = λ ty. some ty;
  remove = λ id version. true;
}

type_env-IsSaving : IsSaving type_env
unfolding IsSaving
type_env-IsSaving ty saved h =
    let e : saved ≡ ty = sym (some-inj h) in
    (ap (λ (x : ThingType). x.parent_type_id) e, ap (λ (x : ThingType). x.meta) e)

abbrev type_a : ThingType
type_a = record {
  meta = record { tenant = main; name = b'A' ∷ []; id = id_a; version = b'1' ∷ []; mod_time = 5 };
  description = none;
  parent_type_id = [];
  instantiable = some true;
  characteristics = colour ∷ [];
  property_sets = [];
  characteristic_by_name = (b'c' ∷ [], colour) ∷ [];
  property_set_by_name = [];
}

abbrev type_b : ThingType
type_b = record {
  meta = record { tenant = main; name = b'B' ∷ []; id = id_b; version = b'1' ∷ []; mod_time = 5 };
  description = none;
  parent_type_id = id_a;
  instantiable = some true;
  characteristics = [];
  property_sets = [];
  characteristic_by_name = [];
  property_set_by_name = [];
}

abbrev request_a : NewThingType
request_a = record {
  name = b'A' ∷ [];
  description = none;
  parent_type_id = [];
  instantiable = none;
  characteristics = colour ∷ record colour { unit = b'm' ∷ [] } ∷ [];
  property_sets = [];
}

abbrev request_b : NewThingType
request_b = record {
  name = b'B' ∷ [];
  description = none;
  parent_type_id = id_a;
  instantiable = some true;
  characteristics = [];
  property_sets = [];
}

abbrev types_a : Dict ThingType
types_a = (id_a, type_a) ∷ []

abbrev pub types_ab : Dict ThingType
types_ab = (id_b, type_b) ∷ (id_a, type_a) ∷ []

-- The second characteristic of a name is dropped.
create_a : create_thing_type type_env [] request_a ≡ done (types_a, type_a)
unfolding create_thing_type add_characteristics add_property_sets trim_space
create_a = refl

create_b : create_thing_type type_env types_a request_b ≡ done (types_ab, type_b)
unfolding create_thing_type add_characteristics add_property_sets trim_space
create_b = refl

types_a-IsForest : IsForest types_a
unfolding Forest.HasParent
types_a-IsForest = Forest.cons {ty = type_a} {es = []} refl (inl refl) Forest.nil

types_ab-IsForest : IsForest types_ab
unfolding Forest.HasParent
types_ab-IsForest = Forest.cons {ty = type_b} {es = types_a} refl (inr refl) types_a-IsForest

create_thing_type-IsForest_example : IsForest types_ab
create_thing_type-IsForest_example =
    create_thing_type-IsForest type_env types_a types_ab request_b type_b type_env-IsSaving
      types_a-IsForest create_b

delete_b : delete_thing_type type_env types_ab id_b (b'1' ∷ []) ≡ done (types_a, type_b)
unfolding delete_thing_type has_child_thing_type
delete_b = refl

delete_thing_type-IsForest_example : IsForest types_a
delete_thing_type-IsForest_example =
    delete_thing_type-IsForest type_env types_ab types_a id_b (b'1' ∷ []) type_b types_ab-IsForest
      delete_b

get_root_thing_type-total_example :
    (line : List ThingType) × IsLine types_ab id_b (type_b ∷ line)
    × (get_root_thing_type (length types_ab) types_ab id_b ≡ some (some (last_of type_b line)))
    × (is_empty (ThingType.parent_type_id (last_of type_b line)) ≡ true)
get_root_thing_type-total_example =
    get_root_thing_type-total types_ab id_b type_b types_ab-IsForest refl refl

explode_thing_type-nearest_example :
    (line : List ThingType) × IsLine types_ab id_b line
    × (made : ThingType) × (explode_thing_type (suc (length types_ab)) types_ab type_b ≡ some made)
    × (load made.characteristic_by_name (b'c' ∷ []) ≡ nearest_characteristic line (b'c' ∷ []))
    × (load made.property_set_by_name (b'c' ∷ []) ≡ nearest_property_set line (b'c' ∷ []))
explode_thing_type-nearest_example =
    explode_thing_type-nearest types_ab type_b (b'c' ∷ []) types_ab-IsForest refl refl

types_ab-IsIndexed :
    (k : List ℕ) (other : ThingType) → load types_ab k ≡ some other → IsIndexed other
unfolding IsIndexed
types_ab-IsIndexed k other h = elim (Bool-cases (eq_bytes id_b k)) [
  | inl q ↦ let e : type_b ≡ other = some-inj (rw q at h) in subst IsIndexed e (λ c. refl)
  | inr q ↦ elim (Bool-cases (eq_bytes id_a k)) [
    | inl r ↦ let e : type_a ≡ other = some-inj (rw (q, r) at h) in subst IsIndexed e (λ c. refl)
    | inr r ↦ absurd (none-ne-some other (rw (q, r) at h))
  ]
]

abbrev bare_thing : Thing
bare_thing = record {
  meta = record {
    tenant = main;
    name = b'x' ∷ [];
    id = b'1' ∷ [];
    version = b'1' ∷ [];
    mod_time = 5;
  };
  description = none;
  type_id = id_b;
  parent = none;
  time_zone = none;
  characteristics = [];
  characteristic_by_name = [];
  property_set_by_name = [];
}

inherit-explode_example :
    (made : Thing) × (exploded : ThingType) × (inherit_characteristic_and_property_set
        (suc (length types_ab))
        types_ab
        bare_thing
      ≡ some made)
    × (explode_thing_type (suc (length types_ab)) types_ab type_b ≡ some exploded)
    × (load made.characteristic_by_name (b'c' ∷ [])
        ≡ load exploded.characteristic_by_name (b'c' ∷ []))
    × (load made.property_set_by_name (b'c' ∷ []) ≡ load exploded.property_set_by_name (b'c' ∷ []))
inherit-explode_example =
    inherit-explode types_ab type_b bare_thing (b'c' ∷ []) types_ab-IsForest types_ab-IsIndexed refl
      refl refl refl refl

index_characteristics-create_thing_type_example :
    load (index_characteristics [] type_a.characteristics) (b'c' ∷ [])
    ≡ load type_a.characteristic_by_name (b'c' ∷ [])
index_characteristics-create_thing_type_example =
    index_characteristics-create_thing_type type_env [] types_a request_a type_a (b'c' ∷ [])
      create_a
