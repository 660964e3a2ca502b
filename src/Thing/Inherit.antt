-- ===== src/Thing/Inherit.antt =====
-- pkg/model/thing/manager.go: what a thing type and a thing take over from the thing types above.
use harns.Prelude.{ℕ, zero, suc, Option, none, some, List, [], ◌∷◌, ◌++◌, if◌then◌else◌}
use harns.Prelude.Dict.{Dict, load, has_key, store}
use harns.Thing.{ThingType, Thing, Characteristic, PropertySet}
use harns.Thing.Types.{is_empty}

-- The loops of `explodeThingType`: what is there already hides what comes later.
abbrev pub absorb_characteristic : ThingType → Characteristic → ThingType
absorb_characteristic rtt c =
    if has_key rtt.characteristic_by_name c.name then rtt else record rtt {
      characteristics = rtt.characteristics ++ c ∷ [];
      characteristic_by_name = store rtt.characteristic_by_name c.name c;
    }

unfoldable pub absorb_characteristics : ThingType → List Characteristic → ThingType
absorb_characteristics rtt [] = rtt
absorb_characteristics rtt (c ∷ cs) = absorb_characteristics (absorb_characteristic rtt c) cs

abbrev pub absorb_property_set : ThingType → PropertySet → ThingType
absorb_property_set rtt ps = if has_key rtt.property_set_by_name ps.name then rtt else record rtt {
  property_sets = rtt.property_sets ++ ps ∷ [];
  property_set_by_name = store rtt.property_set_by_name ps.name ps;
}

unfoldable pub absorb_property_sets : ThingType → List PropertySet → ThingType
absorb_property_sets rtt [] = rtt
absorb_property_sets rtt (ps ∷ pss) = absorb_property_sets (absorb_property_set rtt ps) pss

-- The loop of `explodeThingType` over the thing types from `id` upwards; `none` where the fuel runs
-- out.
unfoldable pub explode_from : ℕ → Dict ThingType → List ℕ → ThingType → Option ThingType
unfolding absorb_characteristics absorb_property_sets
explode_from zero types id rtt = none
explode_from (suc n) types id rtt = if is_empty id then some rtt else elim (load types id) [
  | none ↦ some rtt
  | some ptt ↦
      explode_from n types ptt.parent_type_id
        (absorb_property_sets (absorb_characteristics rtt ptt.characteristics) ptt.property_sets)
]

-- The thing type that `explodeThingType` starts from; its time is not copied.
abbrev pub blank_thing_type : ThingType → ThingType
blank_thing_type ty = record {
  meta = record ty.meta { mod_time = 0 };
  description = ty.description;
  parent_type_id = ty.parent_type_id;
  instantiable = ty.instantiable;
  characteristics = [];
  property_sets = [];
  characteristic_by_name = [];
  property_set_by_name = [];
}

-- `explodeThingType`
unfoldable pub explode_thing_type : ℕ → Dict ThingType → ThingType → Option ThingType
unfolding explode_from
explode_thing_type fuel types ty =
    if is_empty ty.parent_type_id
    then some ty
    else explode_from fuel types ty.meta.id (blank_thing_type ty)

abbrev pub values {ℓ} : {V : Type ℓ} → Dict V → List V
values [] = []
values (e ∷ es) = e.1 ∷ values es

-- The loops of `inheritCharacteristicAndPropertySet` over one thing type.
unfoldable pub inherit_characteristics :
    Dict Characteristic → List Characteristic → Dict Characteristic
inherit_characteristics d [] = d
inherit_characteristics d (v ∷ vs) =
    inherit_characteristics (if has_key d v.name then d else store d v.name v) vs

unfoldable pub inherit_property_sets : Dict PropertySet → List PropertySet → Dict PropertySet
inherit_property_sets d [] = d
inherit_property_sets d (v ∷ vs) =
    inherit_property_sets (if has_key d v.name then d else store d v.name v) vs

-- The loop of `inheritCharacteristicAndPropertySet` from the thing type `id` upwards.
unfoldable pub inherit_from : ℕ → Dict ThingType → List ℕ → Thing → Option Thing
unfolding inherit_characteristics inherit_property_sets
inherit_from zero types id t = none
inherit_from (suc n) types id t = if is_empty id then some t else elim (load types id) [
  | none ↦ some t
  | some ty ↦ inherit_from n types ty.parent_type_id (record t {
    characteristic_by_name =
        inherit_characteristics t.characteristic_by_name (values ty.characteristic_by_name);
    property_set_by_name = inherit_property_sets t.property_set_by_name ty.property_sets;
  })
]

-- `inheritCharacteristicAndPropertySet`
unfoldable pub inherit_characteristic_and_property_set : ℕ → Dict ThingType → Thing → Option Thing
unfolding inherit_from
inherit_characteristic_and_property_set fuel types t = inherit_from fuel types t.type_id t
