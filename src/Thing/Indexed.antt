-- ===== src/Thing/Indexed.antt =====
-- pkg/model/thing/manager.go: the maps that `CreateThingType` fills beside the lists.
use mathlib.Core.Path.{subst}
use harns.Prelude.{
  ℕ, suc, ◌≡◌, refl, sym, ap, ◌∙◌, inl, inr, false, none, some, List, [], ◌∷◌, ◌++◌, Bool-cases,
  if◌then◌else◌, or_else, or_else-none, not, ◌&&◌,
}
use harns.Prelude.Bytes.{eq_bytes, eq_bytes→eq}
use harns.Prelude.Dict.{Dict, load, has_key, load_missing}
use harns.Thing.{
  ThingType, Characteristic, NewThingType, NewPropertySet, done, bind_done, guard_done, done-inj,
}
use harns.Thing.Types.{
  Env, trim_space, is_empty, type_id_of, add_characteristics, add_property_sets,
  create_property_set, append_property_set, new_thing_type, create_thing_type,
}
use harns.Thing.Inherit.{values}
use harns.Thing.Nearest.{first_characteristic}
use harns.Thing.Forest.{save_thing_type-entry}

-- The map has, of every name, the first characteristic of the list, and so have its values in turn.
unfoldable pub IsMirrored : ThingType → Type 0
IsMirrored ty =
    (q : List ℕ)
    → (load ty.characteristic_by_name q ≡ first_characteristic ty.characteristics q)
      × (first_characteristic (values ty.characteristic_by_name) q
          ≡ first_characteristic ty.characteristics q)

pub first_characteristic-append :
    (cs ds : List Characteristic) (q : List ℕ)
    → first_characteristic (cs ++ ds) q
      ≡ or_else (first_characteristic cs q) (first_characteristic ds q)
first_characteristic-append [] ds q = refl
first_characteristic-append (c ∷ cs) ds q =
    let rest = first_characteristic-append cs ds q in
    elim (Bool-cases (eq_bytes c.name q)) [ inl e ↦ rw e refl | inr e ↦ rw e rest ]

pub append-IsMirrored :
    (ty : ThingType) (rc : Characteristic)
    → has_key ty.characteristic_by_name rc.name ≡ false
    → IsMirrored ty
    → IsMirrored (record ty {
      characteristics = ty.characteristics ++ rc ∷ [];
      characteristic_by_name = (rc.name, rc) ∷ ty.characteristic_by_name;
    })
unfolding IsMirrored
append-IsMirrored ty rc free mirrored q =
    let (a, b) = mirrored q in
    let d = ty.characteristic_by_name in
    let cs = ty.characteristics in
    let ends : first_characteristic (cs ++ rc ∷ []) q
        ≡ or_else (first_characteristic cs q) (if eq_bytes rc.name q then some rc else none) =
      first_characteristic-append cs (rc ∷ []) q in
    elim (Bool-cases (eq_bytes rc.name q)) [
      | inl e ↦
          let none_before : first_characteristic cs q ≡ none =
            sym a ∙ ap (load d) (sym (eq_bytes→eq rc.name q e)) ∙ load_missing d rc.name free in
          let last : first_characteristic (cs ++ rc ∷ []) q ≡ some rc =
            ends ∙ rw (none_before, e) refl in
          (rw e (sym last), rw e (sym last))
      | inr e ↦
          let last : first_characteristic (cs ++ rc ∷ []) q ≡ first_characteristic cs q =
            ends ∙ rw e (or_else-none (first_characteristic cs q)) in
          (rw e (a ∙ sym last), rw e (b ∙ sym last))
    ]

add_characteristics-IsMirrored :
    (cs : List Characteristic) (ty : ThingType)
    → IsMirrored ty
    → IsMirrored (add_characteristics ty cs)
unfolding add_characteristics
add_characteristics-IsMirrored [] ty m = m
add_characteristics-IsMirrored (c ∷ cs) ty m =
    elim (Bool-cases (has_key ty.characteristic_by_name (trim_space c.name))) [
      | inl q ↦ rw q (add_characteristics-IsMirrored cs ty m)
      | inr q ↦ rw q (
          add_characteristics-IsMirrored cs _
            (append-IsMirrored ty (record c { name = trim_space c.name }) q m))
    ]

add_property_sets-IsMirrored :
    (env : Env) (pss : List NewPropertySet) (i : ℕ) (ty made : ThingType)
    → add_property_sets env i ty pss ≡ done made
    → IsMirrored ty
    → IsMirrored made
unfolding add_property_sets IsMirrored
add_property_sets-IsMirrored env [] i ty made h m = subst IsMirrored (done-inj ty made h) m
add_property_sets-IsMirrored env (ps ∷ pss) i ty made h m =
    elim (Bool-cases (has_key ty.property_set_by_name (trim_space ps.name))) [
      | inl q ↦ add_property_sets-IsMirrored env pss (suc i) ty made (rw q at h) m
      | inr q ↦
          let (rps, e, rest) = bind_done (create_property_set env i ps ty) _ made (rw q at h) in
          add_property_sets-IsMirrored env pss (suc i) (append_property_set ty rps) made rest m
    ]

-- The map of a thing type that is created holds, of every name, the first characteristic that the thing
-- type has of it, and nothing else.
pub create_thing_type-mirrored :
    (env : Env) (types types' : Dict ThingType) (obj : NewThingType) (made : ThingType) (q : List ℕ)
    → create_thing_type env types obj ≡ done (types', made)
    → (load made.characteristic_by_name q ≡ first_characteristic made.characteristics q)
      × (first_characteristic (values made.characteristic_by_name) q
          ≡ first_characteristic made.characteristics q)
unfolding create_thing_type IsMirrored
create_thing_type-mirrored env types types' obj made q h =
    let start = add_characteristics (new_thing_type env obj) obj.characteristics in
    let (fresh, h1) = guard_done (has_key types (type_id_of env.tenant obj.name)) _ _ _ h in
    let (parent, h2) =
      guard_done (not (is_empty obj.parent_type_id) && not (has_key types obj.parent_type_id)) _ _ _
        h1 in
    let (ty, e, kept) = bind_done (add_property_sets env 0 start obj.property_sets) _ _ h2 in
    let (same, saved, s, l) = save_thing_type-entry env types types' ty made kept in
    let mirrored = add_property_sets-IsMirrored env obj.property_sets 0 start ty e (
      add_characteristics-IsMirrored obj.characteristics (new_thing_type env obj)
        (λ q. (refl, refl))) in
    subst IsMirrored same mirrored q
