-- ===== src/Thing/Types.antt =====
-- pkg/model/thing/manager.go: the operations on thing types.
--
-- `thingTypes` is a map from identifiers. The identifiers, versions and times that an operation makes,
-- the property set types that it looks up and what the store does are fields of `Env`.
use harns.Prelude.{
  ℕ, zero, suc, Bool, true, false, ◌&&◌, ◌||◌, not, Option, none, some, List, [], ◌∷◌, ◌++◌,
  if◌then◌else◌, leb, ◌==◌,
}
use harns.Prelude.Bytes.{eq_bytes}
use harns.Prelude.Dict.{Dict, load, has_key, store, delete}
use harns.Thing.{
  Characteristic, Property, PropertySetType, PropertySet, ThingType, NewPropertySetType,
  NewPropertySet, NewThingType, Result, done, failed, panic, ◌>>=◌, set_defaults_thing_type,
  resource_exists, parent_type_not_found, property_set_type_not_found, internal, not_exist,
  child_type_exist, mismatch, store_error, delete_fundamental_resource_failed,
}

-- The surroundings of one call. `uuid i` is the identifier that is made for the property set in round
-- `i`; `save` and `remove` are what the store answers to a thing type, none for an error.
pub record Env : Type 0 where
  pub tenant : List ℕ
  pub version : List ℕ
  pub now : ℕ
  pub uuid : ℕ → List ℕ
  pub property_set_type_by_id : List ℕ → Option PropertySetType
  pub save : ThingType → Option ThingType
  pub remove : List ℕ → List ℕ → Bool

-- `len(s) > 0`
abbrev pub is_empty : List ℕ → Bool
is_empty [] = true
is_empty (c ∷ cs) = false

-- The white space of ASCII.
abbrev pub is_space : ℕ → Bool
is_space c = (leb 9 c && leb c 13) || (c == 32)

abbrev pub trim_left : List ℕ → List ℕ
trim_left [] = []
trim_left (c ∷ cs) = let rest = trim_left cs in if is_space c then rest else c ∷ cs

abbrev pub trim_right : List ℕ → List ℕ
trim_right [] = []
trim_right (c ∷ cs) =
    let rest = trim_right cs in if is_space c && is_empty rest then [] else c ∷ rest

-- `strings.TrimSpace`, on ASCII
unfoldable pub trim_space : List ℕ → List ℕ
trim_space s = trim_right (trim_left s)

-- `GetThingTypeById` without the explosion
abbrev pub get_thing_type_by_id : Dict ThingType → List ℕ → Result ThingType
get_thing_type_by_id types id = elim (load types id) [ none ↦ failed not_exist | some ty ↦ done ty ]

-- The loop of `CreateThingType` over the characteristics: the first of a name counts.
unfoldable pub add_characteristics : ThingType → List Characteristic → ThingType
add_characteristics ty [] = ty
add_characteristics ty (c ∷ cs) =
    let name = trim_space c.name in
    let rc : Characteristic = record c { name = name } in
    add_characteristics
      (if has_key ty.characteristic_by_name name then ty else record ty {
        characteristics = ty.characteristics ++ rc ∷ [];
        characteristic_by_name = store ty.characteristic_by_name name rc;
      })
      cs

-- The loop of `createPropertySet` over the properties.
unfoldable pub add_properties : PropertySetType → List Property → PropertySetType
add_properties pst [] = pst
add_properties pst (p ∷ ps) =
    let name = trim_space p.name in
    let rp : Property = record p { name = name } in
    add_properties
      (if has_key pst.property_by_name name then pst else record pst {
        properties = pst.properties ++ rp ∷ [];
        property_by_name = store pst.property_by_name name rp;
      })
      ps

-- `*ps.PropertySetTypeId`, if it is there and not empty.
abbrev pub shared_id : NewPropertySet → Option (List ℕ)
shared_id ps = elim ps.property_set_type_id [
  | none ↦ none
  | some id ↦ if is_empty id then none else some id
]

-- A property set type for one thing type alone.
unfoldable pub exclusive_type : List ℕ → List ℕ → NewPropertySetType → ThingType → PropertySetType
unfolding add_properties
exclusive_type name id n ty =
    add_properties
      (record {
        meta = record {
          tenant = ty.meta.tenant;
          name = name;
          id = id;
          version = [];
          mod_time = ty.meta.mod_time;
        };
        description = n.description;
        properties = [];
        property_by_name = [];
      })
      n.properties

-- `createPropertySet`
unfoldable pub create_property_set : Env → ℕ → NewPropertySet → ThingType → Result PropertySet
unfolding exclusive_type
create_property_set env i ps ty =
    let name = trim_space ps.name in
    elim (shared_id ps) [
      | some id ↦ elim (env.property_set_type_by_id id) [
        | none ↦ failed property_set_type_not_found
        | some pst ↦ done (record { name = name; property_set_type = pst })
      ]
      | none ↦ elim ps.property_set_type [
        | none ↦ panic
        | some n ↦
            done (record { name = name; property_set_type = exclusive_type name (env.uuid i) n ty })
      ]
    ]

abbrev pub append_property_set : ThingType → PropertySet → ThingType
append_property_set ty ps = record ty {
  property_sets = ty.property_sets ++ ps ∷ [];
  property_set_by_name = store ty.property_set_by_name ps.name ps;
}

-- The loop of `CreateThingType` over the property sets, from round `i` on.
unfoldable pub add_property_sets : Env → ℕ → ThingType → List NewPropertySet → Result ThingType
add_property_sets env i ty [] = done ty
add_property_sets env i ty (ps ∷ pss) =
    let added = create_property_set env i ps ty >>= λ rps.
    add_property_sets env (suc i) (append_property_set ty rps) pss in
    let skipped = add_property_sets env (suc i) ty pss in
    if has_key ty.property_set_by_name (trim_space ps.name) then skipped else added

-- `fmt.Sprintf("%s.%s", tenant, name)`
abbrev pub type_id_of : List ℕ → List ℕ → List ℕ
type_id_of tenant name = tenant ++ b'.' ∷ name

abbrev pub new_thing_type : Env → NewThingType → ThingType
new_thing_type env obj = set_defaults_thing_type (record {
  meta = record {
    tenant = env.tenant;
    name = trim_space obj.name;
    id = type_id_of env.tenant obj.name;
    version = env.version;
    mod_time = env.now;
  };
  description = obj.description;
  parent_type_id = obj.parent_type_id;
  instantiable = obj.instantiable;
  characteristics = [];
  property_sets = [];
  characteristic_by_name = [];
  property_set_by_name = [];
})

-- What the manager hands to the store and keeps of its answer.
abbrev pub save_thing_type : Env → Dict ThingType → ThingType → Result (Dict ThingType × ThingType)
save_thing_type env types ty = elim (env.save ty) [
  | none ↦ failed internal
  | some saved ↦ done (store types ty.meta.id saved, ty)
]

-- `CreateThingType`: the map after it, and the thing type that it returns.
unfoldable pub create_thing_type :
    Env → Dict ThingType → NewThingType → Result (Dict ThingType × ThingType)
unfolding add_characteristics add_property_sets
create_thing_type env types obj =
    let id = type_id_of env.tenant obj.name in
    let created =
      add_property_sets env 0 (add_characteristics (new_thing_type env obj) obj.characteristics)
        obj.property_sets
      >>= save_thing_type env types in
    if has_key types id
    then failed resource_exists
    else if not (is_empty obj.parent_type_id) && not (has_key types obj.parent_type_id)
    then failed parent_type_not_found
    else created

-- `hasChildThingType`
unfoldable pub has_child_thing_type : Dict ThingType → List ℕ → Bool
has_child_thing_type [] id = false
has_child_thing_type (e ∷ es) id = eq_bytes e.1.parent_type_id id || has_child_thing_type es id

-- "main.BaseAgent"
abbrev pub base_agent : List ℕ
base_agent =
    b'm' ∷ b'a' ∷ b'i' ∷ b'n' ∷ b'.' ∷ b'B' ∷ b'a' ∷ b's' ∷ b'e' ∷ b'A' ∷ b'g' ∷ b'e' ∷ b'n' ∷ b't'
    ∷ []

-- `deleteThingType`, but for the deletion of the things of the type, which runs on its own.
unfoldable pub delete_thing_type :
    Env → Dict ThingType → List ℕ → List ℕ → Result (Dict ThingType × ThingType)
unfolding has_child_thing_type
delete_thing_type env types id version =
    if eq_bytes id base_agent
    then failed delete_fundamental_resource_failed
    else get_thing_type_by_id types id >>= λ ty.
        if has_child_thing_type types id
        then failed child_type_exist
        else if not (eq_bytes ty.meta.version version)
        then failed mismatch
        else if not (env.remove id version)
        then failed store_error
        else done (delete types id, ty)

-- The loop of `GetRootThingType` from a thing type on; `none` where the fuel runs out.
unfoldable pub climb : ℕ → Dict ThingType → ThingType → Option ThingType
climb zero types root = none
climb (suc n) types root =
    if is_empty root.parent_type_id
    then some root
    else elim (load types root.parent_type_id) [ none ↦ some root | some ty ↦ climb n types ty ]

-- `GetRootThingType`; the inner `none` is nil.
unfoldable pub get_root_thing_type : ℕ → Dict ThingType → List ℕ → Option (Option ThingType)
unfolding climb
get_root_thing_type fuel types id = elim (load types id) [
  | none ↦ some none
  | some ty ↦ elim (climb fuel types ty) [ none ↦ none | some root ↦ some (some root) ]
]
