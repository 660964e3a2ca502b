-- ===== src/Thing/Nearest.antt =====
-- pkg/model/thing/manager.go: the nearest characteristic and property set of a name, and what a thing
-- type adds to a walk.
use harns.Prelude.{
  ℕ, ◌≡◌, refl, sym, ap, ◌∙◌, inl, inr, arith, Option, none, some, List, [], ◌∷◌, Bool-cases,
  if◌then◌else◌, or_else, or_else-none, or_else_assoc,
}
use harns.Prelude.Bytes.{eq_bytes}
use harns.Prelude.Dict.{Dict, load, has_key, offer, load-offer}
use harns.Thing.{ThingType, Characteristic, PropertySet}
use harns.Thing.Inherit.{
  absorb_characteristic, absorb_property_set, absorb_characteristics, absorb_property_sets,
  inherit_characteristics, inherit_property_sets,
}

-- The first of a name.
abbrev pub first_characteristic : List Characteristic → List ℕ → Option Characteristic
first_characteristic [] q = none
first_characteristic (c ∷ cs) q =
    let rest = first_characteristic cs q in if eq_bytes c.name q then some c else rest

abbrev pub first_property_set : List PropertySet → List ℕ → Option PropertySet
first_property_set [] q = none
first_property_set (ps ∷ pss) q =
    let rest = first_property_set pss q in if eq_bytes ps.name q then some ps else rest

-- The nearest of a name in a line of thing types.
unfoldable pub nearest_characteristic : List ThingType → List ℕ → Option Characteristic
nearest_characteristic [] q = none
nearest_characteristic (ty ∷ line) q =
    or_else (first_characteristic ty.characteristics q) (nearest_characteristic line q)

unfoldable pub nearest_property_set : List ThingType → List ℕ → Option PropertySet
nearest_property_set [] q = none
nearest_property_set (ty ∷ line) q =
    or_else (first_property_set ty.property_sets q) (nearest_property_set line q)

first_characteristic-cons :
    (c : Characteristic) (cs : List Characteristic) (q : List ℕ)
    → or_else (if eq_bytes c.name q then some c else none) (first_characteristic cs q)
      ≡ first_characteristic (c ∷ cs) q
first_characteristic-cons c cs q = ground arith

first_property_set-cons :
    (ps : PropertySet) (pss : List PropertySet) (q : List ℕ)
    → or_else (if eq_bytes ps.name q then some ps else none) (first_property_set pss q)
      ≡ first_property_set (ps ∷ pss) q
first_property_set-cons ps pss q = ground arith

pub inherit_characteristics_lem :
    (cs : List Characteristic) (d : Dict Characteristic) (q : List ℕ)
    → load (inherit_characteristics d cs) q ≡ or_else (load d q) (first_characteristic cs q)
unfolding inherit_characteristics
inherit_characteristics_lem [] d q = sym (or_else-none (load d q))
inherit_characteristics_lem (c ∷ cs) d q =
    inherit_characteristics_lem cs (offer d c.name c) q
    ∙ rw (load-offer d c.name c q, or_else_assoc, first_characteristic-cons c cs q) refl

pub inherit_property_sets_lem :
    (pss : List PropertySet) (d : Dict PropertySet) (q : List ℕ)
    → load (inherit_property_sets d pss) q ≡ or_else (load d q) (first_property_set pss q)
unfolding inherit_property_sets
inherit_property_sets_lem [] d q = sym (or_else-none (load d q))
inherit_property_sets_lem (ps ∷ pss) d q =
    inherit_property_sets_lem pss (offer d ps.name ps) q
    ∙ rw (load-offer d ps.name ps q, or_else_assoc, first_property_set-cons ps pss q) refl

-- The two loops over one thing type do the same to the maps.
absorb_characteristic-maps :
    (rtt : ThingType) (c : Characteristic)
    → ((absorb_characteristic rtt c).characteristic_by_name
        ≡ offer rtt.characteristic_by_name c.name c)
      × ((absorb_characteristic rtt c).property_set_by_name ≡ rtt.property_set_by_name)
absorb_characteristic-maps rtt c = elim (Bool-cases (has_key rtt.characteristic_by_name c.name)) [
  | inl q ↦ (rw q refl, rw q refl)
  | inr q ↦ (rw q refl, rw q refl)
]

absorb_property_set-maps :
    (rtt : ThingType) (ps : PropertySet)
    → ((absorb_property_set rtt ps).characteristic_by_name ≡ rtt.characteristic_by_name)
      × ((absorb_property_set rtt ps).property_set_by_name
          ≡ offer rtt.property_set_by_name ps.name ps)
absorb_property_set-maps rtt ps = elim (Bool-cases (has_key rtt.property_set_by_name ps.name)) [
  | inl q ↦ (rw q refl, rw q refl)
  | inr q ↦ (rw q refl, rw q refl)
]

absorb_characteristics-maps :
    (cs : List Characteristic) (rtt : ThingType)
    → ((absorb_characteristics rtt cs).characteristic_by_name
        ≡ inherit_characteristics rtt.characteristic_by_name cs)
      × ((absorb_characteristics rtt cs).property_set_by_name ≡ rtt.property_set_by_name)
unfolding absorb_characteristics inherit_characteristics
absorb_characteristics-maps [] rtt = (refl, refl)
absorb_characteristics-maps (c ∷ cs) rtt =
    let (p, q) = absorb_characteristics-maps cs (absorb_characteristic rtt c) in
    let (p', q') = absorb_characteristic-maps rtt c in
    (p ∙ ap (λ (d : Dict Characteristic). inherit_characteristics d cs) p', q ∙ q')

absorb_property_sets-maps :
    (pss : List PropertySet) (rtt : ThingType)
    → ((absorb_property_sets rtt pss).characteristic_by_name ≡ rtt.characteristic_by_name)
      × ((absorb_property_sets rtt pss).property_set_by_name
          ≡ inherit_property_sets rtt.property_set_by_name pss)
unfolding absorb_property_sets inherit_property_sets
absorb_property_sets-maps [] rtt = (refl, refl)
absorb_property_sets-maps (ps ∷ pss) rtt =
    let (p, q) = absorb_property_sets-maps pss (absorb_property_set rtt ps) in
    let (p', q') = absorb_property_set-maps rtt ps in
    (p ∙ p', q ∙ ap (λ (d : Dict PropertySet). inherit_property_sets d pss) q')

-- What one thing type adds.
pub absorb-load :
    (rtt ty : ThingType) (q : List ℕ)
    → (rtt' : ThingType) × (absorb_property_sets
          (absorb_characteristics rtt ty.characteristics)
          ty.property_sets
        ≡ rtt')
      × (load rtt'.characteristic_by_name q
          ≡ or_else (load rtt.characteristic_by_name q) (first_characteristic ty.characteristics q))
      × (load rtt'.property_set_by_name q
          ≡ or_else (load rtt.property_set_by_name q) (first_property_set ty.property_sets q))
absorb-load rtt ty q =
    let mid = absorb_characteristics rtt ty.characteristics in
    let (a, b) = absorb_characteristics-maps ty.characteristics rtt in
    let (c, d) = absorb_property_sets-maps ty.property_sets mid in
    (
      absorb_property_sets mid ty.property_sets,
      refl,
      ap (λ (m : Dict Characteristic). load m q) (c ∙ a)
          ∙ inherit_characteristics_lem ty.characteristics rtt.characteristic_by_name q,
      ap (λ (m : Dict PropertySet). load m q) d
          ∙ inherit_property_sets_lem ty.property_sets mid.property_set_by_name q
          ∙ ap
              (λ (m : Dict PropertySet). or_else (load m q) (first_property_set ty.property_sets q))
              b,
    )
