-- ===== src/Thing/Creation.antt =====
-- pkg/model/thing/manager.go: what the creation of a thing stores.
use harns.Prelude.{
  ℕ, zero, suc, ◌≡◌, sym, ap, ◌∙◌, inl, inr, some, some-inj, none-ne-some, List, [], ◌∷◌,
  Bool-cases, Option-cases, not, ◌&&◌,
}
use harns.Prelude.Dict.{Dict, load, has_key, store}
use harns.Thing.{
  ObjectMeta, Thing, ThingType, NewThing, NewValue, done, bind_done, guard_done, done-inj,
  failed-ne-done, panic-ne-done, internal, endless, characteristic_not_found, thing_type_not_found,
}
use harns.Thing.Types.{is_empty}
use harns.Thing.Inherit.{inherit_from, inherit_characteristic_and_property_set}
use harns.Thing.Things.{
  ThingEnv, create_thing, blank_thing, pointer_to, inherit, add_values, save_thing, load_location,
}
use harns.Thing.Moves.{IsSavingThing}

-- What the loops of `CreateThing` keep of a thing.
IsSame : Thing → Thing → Type 0
IsSame t u = (u.parent ≡ t.parent) × (u.meta ≡ t.meta)

inherit_from-IsSame :
    (n : ℕ) (types : Dict ThingType) (id : List ℕ) (t u : Thing)
    → inherit_from n types id t ≡ some u
    → IsSame t u
unfolding inherit_from IsSame
inherit_from-IsSame zero types id t u h = absurd (none-ne-some u h)
inherit_from-IsSame (suc n) types id t u h = elim (Bool-cases (is_empty id)) [
  | inl q ↦
      let e : t ≡ u = some-inj (rw (inherit_from, q) at h) in
      (sym (ap (λ (x : Thing). x.parent) e), sym (ap (λ (x : Thing). x.meta) e))
  | inr q ↦ elim (Option-cases (load types id)) [
    | inl l ↦
        let e : t ≡ u = some-inj (rw (inherit_from, q, l) at h) in
        (sym (ap (λ (x : Thing). x.parent) e), sym (ap (λ (x : Thing). x.meta) e))
    | inr (ty, l) ↦ inherit_from-IsSame n types ty.parent_type_id _ u (rw (inherit_from, q, l) at h)
  ]
]

inherit-IsSame :
    (n : ℕ) (types : Dict ThingType) (t u : Thing) → inherit n types t ≡ done u → IsSame t u
unfolding inherit_characteristic_and_property_set
inherit-IsSame n types t u h =
    elim (Option-cases (inherit_characteristic_and_property_set n types t)) [
      | inl q ↦ absurd (failed-ne-done endless u (rw (inherit, q) at h))
      | inr (v, q) ↦
          inherit_from-IsSame n types t.type_id t u
            (q ∙ ap some (done-inj v u (rw (inherit, q) at h)))
    ]

add_values-IsSame : (cs : List NewValue) (t u : Thing) → add_values t cs ≡ done u → IsSame t u
unfolding add_values IsSame
add_values-IsSame [] t u h =
    let e = done-inj t u h in
    (sym (ap (λ (x : Thing). x.parent) e), sym (ap (λ (x : Thing). x.meta) e))
add_values-IsSame (c ∷ cs) t u h = elim (Bool-cases (has_key t.characteristic_by_name c.name)) [
  | inl q ↦ add_values-IsSame cs _ u (rw q at h)
  | inr q ↦ absurd (failed-ne-done characteristic_not_found u (rw q at h))
]

save_thing-entry :
    (env : ThingEnv) (things things' : Dict Thing) (t made : Thing)
    → save_thing env things t ≡ done (things', made)
    → (saved : Thing) × (env.save t ≡ some saved) × (things' ≡ store things t.meta.id saved)
save_thing-entry env things things' t made h = elim (Option-cases (env.save t)) [
  | inl n ↦ absurd (failed-ne-done internal (things', made) (rw (save_thing, n) at h))
  | inr (saved, s) ↦
      let e : (store things t.meta.id saved, t) ≡ (things', made) =
        done-inj _ _ (rw (save_thing, s) at h) in
      (saved, s, sym (ap (λ (x : Dict Thing × Thing). x.0) e))
]

-- What is stored after a creation.
pub create_thing-entry :
    (fuel : ℕ) (env : ThingEnv) (types : Dict ThingType) (things things' : Dict Thing)
    (obj : NewThing) (made : Thing)
    → IsSavingThing env
    → create_thing fuel env types things obj ≡ done (things', made)
    → (new : Thing) × (new.meta.id ≡ env.uuid)
      × (new.meta.tenant ≡ env.tenant)
      × (new.parent ≡ pointer_to things obj.parent_id)
      × (things' ≡ store things env.uuid new)
unfolding create_thing IsSame IsSavingThing
create_thing-entry fuel env types things things' obj made saving h =
    elim (Option-cases (load types obj.type_id)) [
      | inl n ↦
          absurd (failed-ne-done thing_type_not_found (things', made) (rw (create_thing, n) at h))
      | inr (ty, l) ↦ elim (Option-cases ty.instantiable) [
        | inl n ↦ absurd (panic-ne-done (things', made) (rw (create_thing, l, n) at h))
        | inr (b, q) ↦
            let (able, h1) = guard_done (not b) _ _ _ (rw (create_thing, l, q) at h) in
            let (placed, h2) =
              guard_done (not (is_empty obj.parent_id) && not (has_key things obj.parent_id)) _ _ _
                h1 in
            let (zone, z, h3) = bind_done (load_location env obj.time_zone) _ _ h2 in
            let (t, i, h4) =
              bind_done (inherit fuel types (blank_thing env things obj ty zone)) _ _ h3 in
            let (u, a, h5) = bind_done (add_values t obj.characteristics) _ _ h4 in
            let (saved, s, e) = save_thing-entry env things things' u made h5 in
            let (tp, tm) = inherit-IsSame fuel types (blank_thing env things obj ty zone) t i in
            let (up, um) = add_values-IsSame obj.characteristics t u a in
            let (sp, si, st) = saving u saved s in
            let id : u.meta.id ≡ env.uuid = ap (λ (x : ObjectMeta). x.id) (um ∙ tm) in
            (
              saved,
              si ∙ id,
              st ∙ ap (λ (x : ObjectMeta). x.tenant) (um ∙ tm),
              sp ∙ up ∙ tp,
              e ∙ ap (λ (k : List ℕ). store things k saved) id,
            )
      ]
    ]
