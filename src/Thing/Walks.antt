-- ===== src/Thing/Walks.antt =====
-- pkg/model/thing/manager.go: `explodeThingType` and `inheritCharacteristicAndPropertySet` along a line
-- of thing types.
use mathlib.Core.Path.{subst}
use harns.Prelude.{
  ℕ, zero, suc, ◌<◌, ◌≡◌, refl, sym, ap, ◌∙◌, inr, arith, false, some, List, [], ◌∷◌, length,
  or_else, or_else-none, or_else_assoc,
}
use harns.Prelude.Dict.{Dict, load, load-has_key}
use harns.Thing.{ThingType, Thing, Characteristic, PropertySet}
use harns.Thing.Types.{is_empty}
use harns.Thing.Lineage.{IsLine, top, up, IsForest-IsLine}
use harns.Thing.Forest.{IsForest}
use harns.Thing.Inherit.{
  blank_thing_type, explode_from, explode_thing_type, values, inherit_characteristics,
  inherit_property_sets, inherit_from, inherit_characteristic_and_property_set,
}
use harns.Thing.Nearest.{
  first_characteristic, first_property_set, nearest_characteristic, nearest_property_set,
  inherit_characteristics_lem, inherit_property_sets_lem, absorb-load,
}

-- With a round for each thing type of the line and one more, the loop of the explosion returns, and a
-- name that was not there has its nearest value.
explode_from-nearest :
    {types : Dict ThingType} {id : List ℕ} (line : List ThingType) (n : ℕ) (rtt : ThingType)
    (q : List ℕ)
    → IsLine types id line
    → length line < n
    → (made : ThingType) × (explode_from n types id rtt ≡ some made)
      × (load made.characteristic_by_name q
          ≡ or_else (load rtt.characteristic_by_name q) (nearest_characteristic line q))
      × (load made.property_set_by_name q
          ≡ or_else (load rtt.property_set_by_name q) (nearest_property_set line q))
unfolding explode_from nearest_characteristic nearest_property_set
explode_from-nearest line zero rtt q is h = absurd (omega arith)
explode_from-nearest [] (suc n) rtt q (top e) h =
    (rtt, rw e refl, sym (or_else-none _), sym (or_else-none _))
explode_from-nearest (ty ∷ line) (suc n) rtt q (up e l above) h =
    let (rtt', s, a, b) = absorb-load rtt ty q in
    let (made, r, c, d) = explode_from-nearest line n rtt' q above (omega arith) in
    (
      made,
      rw (e, l, s) r,
      c
          ∙ rw a (
              or_else_assoc (load rtt.characteristic_by_name q)
                (first_characteristic ty.characteristics q) (nearest_characteristic line q)),
      d
          ∙ rw b (
              or_else_assoc (load rtt.property_set_by_name q)
                (first_property_set ty.property_sets q) (nearest_property_set line q)),
    )

-- Exploding a thing type that has a parent returns, on a forest of thing types, after at most one round
-- for each of them, and of the characteristics and of the property sets of a name it holds the nearest
-- on the line of parents, the thing type's own first: a child hides what its parents have.
pub explode_thing_type-nearest :
    (types : Dict ThingType) (ty : ThingType) (q : List ℕ)
    → IsForest types
    → load types ty.meta.id ≡ some ty
    → is_empty ty.parent_type_id ≡ false
    → (line : List ThingType) × IsLine types ty.meta.id line
      × (made : ThingType) × (explode_thing_type (suc (length types)) types ty ≡ some made)
      × (load made.characteristic_by_name q ≡ nearest_characteristic line q)
      × (load made.property_set_by_name q ≡ nearest_property_set line q)
unfolding explode_thing_type
explode_thing_type-nearest types ty q f l e =
    let (line, is, n) =
      IsForest-IsLine types ty.meta.id f (inr (load-has_key types ty.meta.id ty l)) in
    let (made, r, c, d) =
      explode_from-nearest line (suc (length types)) (blank_thing_type ty) q is (omega arith) in
    (line, is, made, rw (explode_thing_type, e) r, c, d)

-- Every characteristic of a thing type, and no other, is in its map, by its name.
unfoldable pub IsIndexed : ThingType → Type 0
IsIndexed ty =
    (q : List ℕ)
    → first_characteristic (values ty.characteristic_by_name) q
      ≡ first_characteristic ty.characteristics q

inherit_from-nearest :
    {types : Dict ThingType} {id : List ℕ} (line : List ThingType) (n : ℕ) (t : Thing) (q : List ℕ)
    → IsLine types id line
    → ((k : List ℕ) (ty : ThingType) → load types k ≡ some ty → IsIndexed ty)
    → length line < n
    → (made : Thing) × (inherit_from n types id t ≡ some made)
      × (load made.characteristic_by_name q
          ≡ or_else (load t.characteristic_by_name q) (nearest_characteristic line q))
      × (load made.property_set_by_name q
          ≡ or_else (load t.property_set_by_name q) (nearest_property_set line q))
unfolding inherit_from nearest_characteristic nearest_property_set IsIndexed
inherit_from-nearest line zero t q is indexed h = absurd (omega arith)
inherit_from-nearest [] (suc n) t q (top e) indexed h =
    (t, rw e refl, sym (or_else-none _), sym (or_else-none _))
inherit_from-nearest {id = id} (ty ∷ line) (suc n) t q (up e l above) indexed h =
    let cs = inherit_characteristics t.characteristic_by_name (values ty.characteristic_by_name) in
    let pss = inherit_property_sets t.property_set_by_name ty.property_sets in
    let (made, r, c, d) =
      inherit_from-nearest line n
        (record t { characteristic_by_name = cs; property_set_by_name = pss }) q above indexed
        (omega arith) in
    let a : load cs q
        ≡ or_else (load t.characteristic_by_name q) (first_characteristic ty.characteristics q) =
      inherit_characteristics_lem (values ty.characteristic_by_name) t.characteristic_by_name q
      ∙ ap (or_else (load t.characteristic_by_name q)) (indexed id ty l q) in
    let b : load pss q
        ≡ or_else (load t.property_set_by_name q) (first_property_set ty.property_sets q) =
      inherit_property_sets_lem ty.property_sets t.property_set_by_name q in
    (
      made,
      rw (e, l) r,
      c
          ∙ rw a (
              or_else_assoc (load t.characteristic_by_name q)
                (first_characteristic ty.characteristics q) (nearest_characteristic line q)),
      d
          ∙ rw b (
              or_else_assoc (load t.property_set_by_name q) (first_property_set ty.property_sets q)
                (nearest_property_set line q)),
    )

-- A new thing, whose maps are empty, inherits exactly what its thing type shows when it is exploded:
-- on a forest of thing types that are indexed, and for a thing type with a parent, both walks return,
-- and every name has the same characteristic and the same property set in the thing and in the exploded
-- thing type.
pub inherit-explode :
    (types : Dict ThingType) (ty : ThingType) (t : Thing) (q : List ℕ)
    → IsForest types
    → ((k : List ℕ) (other : ThingType) → load types k ≡ some other → IsIndexed other)
    → load types ty.meta.id ≡ some ty
    → is_empty ty.parent_type_id ≡ false
    → t.type_id ≡ ty.meta.id
    → t.characteristic_by_name ≡ []
    → t.property_set_by_name ≡ []
    → (made : Thing) × (exploded : ThingType) × (inherit_characteristic_and_property_set
          (suc (length types))
          types
          t
        ≡ some made)
      × (explode_thing_type (suc (length types)) types ty ≡ some exploded)
      × (load made.characteristic_by_name q ≡ load exploded.characteristic_by_name q)
      × (load made.property_set_by_name q ≡ load exploded.property_set_by_name q)
unfolding explode_thing_type inherit_characteristic_and_property_set
inherit-explode types ty t q f indexed l e same nocs nopss =
    let (line, is, n) =
      IsForest-IsLine types ty.meta.id f (inr (load-has_key types ty.meta.id ty l)) in
    let (exploded, r, c, d) =
      explode_from-nearest line (suc (length types)) (blank_thing_type ty) q is (omega arith) in
    let (made, r', c', d') =
      inherit_from-nearest line (suc (length types)) t q is indexed (omega arith) in
    let c'' : load made.characteristic_by_name q ≡ nearest_characteristic line q =
      c'
      ∙ ap (λ (m : Dict Characteristic). or_else (load m q) (nearest_characteristic line q)) nocs in
    let d'' : load made.property_set_by_name q ≡ nearest_property_set line q =
      d' ∙ ap (λ (m : Dict PropertySet). or_else (load m q) (nearest_property_set line q)) nopss in
    (
      made,
      exploded,
      subst (λ (id : List ℕ). inherit_from (suc (length types)) types id t ≡ some made) (sym same)
          r',
      rw (explode_thing_type, e) r,
      c'' ∙ sym c,
      d'' ∙ sym d,
    )
