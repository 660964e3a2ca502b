-- ===== src/Thing/Moves.antt =====
-- pkg/model/thing/manager.go, pkg/model/thing/rest.go: what an update does to the parent of a thing.
use mathlib.Core.Path.{subst}
use harns.Prelude.{
  ℕ, ◌≡◌, refl, sym, ap, ◌∙◌, ◌⊎◌, inl, inr, false, Option, none, some, some-inj, List, [], ◌∷◌,
  Bool-cases, Option-cases, if◌then◌else◌, not,
}
use harns.Prelude.Bytes.{eq_bytes}
use harns.Prelude.Dict.{Dict, load, has_key, store}
use harns.Thing.{
  Thing, NewThing, NewValue, done, failed, bind_done, guard_done, done-inj, failed-ne-done,
  panic-ne-done, ObjectMeta, immutable_field, invalid_parent, endless, store_error, not_exist,
  characteristic_not_found, parent_type_not_found, cycled_thing,
}
use harns.Thing.Types.{is_empty}
use harns.Thing.Things.{ThingEnv, is_my_child_thing, load_location}
use harns.Thing.Update.{
  move_parent, check_characteristics, update_parent, update_values, update_cached_thing,
  save_update, update_time_zone, update_thing, validate_thing_update, update,
}

-- Every thing is stored under its own identifier.
unfoldable pub IsKeyed : Dict Thing → Type 0
IsKeyed things = (k : List ℕ) (t : Thing) → load things k ≡ some t → t.meta.id ≡ k

-- The store answers with the thing that it was given, up to what it fills in.
unfoldable pub IsSavingThing : ThingEnv → Type 0
IsSavingThing env =
    (t saved : Thing)
    → env.save t ≡ some saved
    → (saved.parent ≡ t.parent) × (saved.meta.id ≡ t.meta.id) × (saved.meta.tenant ≡ t.meta.tenant)

-- What the update of the parent comes to: the old one, none, or one that is not below the thing.
unfoldable pub IsMove :
    ℕ → ThingEnv → Dict Thing → List ℕ → List ℕ → Option (List ℕ) → Option (List ℕ) → Type 0
IsMove fuel env things to id before after =
    (after ≡ before)
    ⊎ ((after ≡ none)
        ⊎ ((parent : Thing) × (load things to ≡ some parent)
            × (is_my_child_thing fuel env.tenant things id to ≡ some false)
            × (after ≡ some parent.meta.id)))

parent_of : Thing → Option (List ℕ)
parent_of t = t.parent

module _ (fuel : ℕ) (env : ThingEnv) (things : Dict Thing) (obj : NewThing) where
  move_parent-IsMove :
      (old moved : Thing)
      → move_parent fuel env things obj old ≡ done moved
      → IsMove fuel env things obj.parent_id old.meta.id old.parent moved.parent
  unfolding IsMove parent_of
  move_parent-IsMove old moved h = elim (Bool-cases (is_empty obj.parent_id)) [
    | inl q ↦ inr (inl (sym (ap parent_of (done-inj _ _ (rw (move_parent, q) at h)))))
    | inr q ↦ elim (Option-cases (load things obj.parent_id)) [
      | inl n ↦ absurd (failed-ne-done parent_type_not_found moved (rw (move_parent, q, n) at h))
      | inr (parent, l) ↦
          elim (Option-cases (is_my_child_thing fuel env.tenant things old.meta.id obj.parent_id)) [
            | inl n ↦ absurd (failed-ne-done endless moved (rw (move_parent, q, l, n) at h))
            | inr (b, r) ↦
                let (apart, e) = guard_done b cycled_thing _ _ (rw (move_parent, q, l, r) at h) in
                inr (inr (parent, l, r ∙ ap some apart, sym (ap parent_of (done-inj _ _ e))))
          ]
    ]
  ]

  update_parent-IsMove :
      (old moved : Thing)
      → update_parent fuel env things obj old ≡ done moved
      → IsMove fuel env things obj.parent_id old.meta.id old.parent moved.parent
  unfolding IsMove update_parent parent_of
  update_parent-IsMove old moved h = elim (Option-cases old.parent) [
    | inl n ↦ move_parent-IsMove old moved (rw (update_parent, n) at h)
    | inr (p, q) ↦ elim (Bool-cases (eq_bytes obj.parent_id p)) [
      | inl e ↦ inl (sym (ap parent_of (done-inj _ _ (rw (update_parent, q, e) at h))))
      | inr e ↦ move_parent-IsMove old moved (rw (update_parent, q, e) at h)
    ]
  ]

  check_characteristics-same :
      (cs : List NewValue) (t u : Thing) → check_characteristics t cs ≡ done u → t ≡ u
  unfolding check_characteristics
  check_characteristics-same [] t u h = done-inj t u h
  check_characteristics-same (c ∷ cs) t u h =
      elim (Bool-cases (has_key t.characteristic_by_name c.name)) [
        | inl q ↦ check_characteristics-same cs t u (rw q at h)
        | inr q ↦ absurd (failed-ne-done characteristic_not_found u (rw q at h))
      ]

  update_time_zone-keeps :
      (t u : Thing)
      → update_time_zone env obj t ≡ done u
      → (u.parent ≡ t.parent) × (u.meta ≡ t.meta)
  unfolding parent_of
  update_time_zone-keeps t u h =
      let (zone, e, r) = bind_done (load_location env obj.time_zone) _ _ h in
      elim (Option-cases zone) [
        | inl n ↦
            let same : t ≡ u = done-inj t u (rw n at r) in
            (sym (ap parent_of same), sym (ap (λ (x : Thing). x.meta) same))
        | inr (z, q) ↦
            let same : record t { time_zone = some z } ≡ u = done-inj _ u (rw q at r) in
            (sym (ap parent_of same), sym (ap (λ (x : Thing). x.meta) same))
      ]

  save_update-entry :
      (id : List ℕ) (changed t : Thing) (things' : Dict Thing)
      → save_update env things id changed ≡ done (things', t)
      → (saved : Thing) × (env.save changed ≡ some saved)
        × (stored : Thing) × (load things id ≡ some stored)
        × (things' ≡ store things id (update_cached_thing saved stored))
  save_update-entry id changed t things' h = elim (Option-cases (env.save changed)) [
    | inl n ↦ absurd (failed-ne-done store_error _ (rw (save_update, n) at h))
    | inr (saved, s) ↦ elim (Option-cases (load things id)) [
      | inl n ↦ absurd (panic-ne-done _ (rw (save_update, s, n) at h))
      | inr (stored, l) ↦
          let e = done-inj _ (things', t) (rw (save_update, s, l) at h) in
          (saved, s, stored, l, sym (ap (λ (x : Dict Thing × Thing). x.0) e))
    ]
  ]

  update_thing-entry :
      (id version : List ℕ) (old t : Thing) (things' : Dict Thing)
      → IsSavingThing env
      → update_thing fuel env things id version obj old ≡ done (things', t)
      → (stored changed : Thing) × (load things id ≡ some stored)
        × (changed.meta.id ≡ stored.meta.id)
        × (changed.meta.tenant ≡ stored.meta.tenant)
        × IsMove fuel env things obj.parent_id old.meta.id old.parent changed.parent
        × (things' ≡ store things id changed)
  unfolding update_thing IsMove IsSavingThing parent_of
  update_thing-entry id version old t things' saving h =
      let begun : Thing = record old {
        meta = record old.meta { mod_time = env.now };
        description = obj.description;
      } in
      let (same, h1) = guard_done (not (eq_bytes version old.meta.version)) _ _ _ h in
      let (zoned, z, h2) = bind_done (update_time_zone env obj begun) _ _ h1 in
      let (checked, c, h3) = bind_done (check_characteristics zoned obj.characteristics) _ _ h2 in
      let (moved, m, h4) = bind_done (update_parent fuel env things obj checked) _ _ h3 in
      let (saved, s, stored, l, e) =
        save_update-entry id (update_values env obj moved) t things' h4 in
      let (zp, zm) = update_time_zone-keeps begun zoned z in
      let alike = check_characteristics-same obj.characteristics zoned checked c in
      let p : checked.parent ≡ old.parent = sym (ap parent_of alike) ∙ zp in
      let i : checked.meta.id ≡ old.meta.id =
        sym (ap (λ (x : Thing). x.meta.id) alike) ∙ ap (λ (x : ObjectMeta). x.id) zm in
      let move : IsMove fuel env things obj.parent_id old.meta.id old.parent moved.parent =
        subst
          (λ (w : Option (List ℕ)). IsMove fuel env things obj.parent_id old.meta.id w moved.parent)
          p
          (subst
            (λ (w : List ℕ). IsMove fuel env things obj.parent_id w checked.parent moved.parent) i
            (update_parent-IsMove checked moved m)) in
      let kept : moved.parent ≡ saved.parent =
        sym ((saving (update_values env obj moved) saved s).0) in
      (
        stored,
        update_cached_thing saved stored,
        l,
        refl,
        refl,
        subst
            (λ (w : Option (List ℕ)). IsMove fuel env things obj.parent_id old.meta.id old.parent w)
            kept move,
        e,
      )

  -- What is stored after an update.
  pub update-entry :
      (id version : List ℕ) (t : Thing) (things' : Dict Thing)
      → IsSavingThing env
      → update fuel env things id version obj ≡ done (things', t)
      → (old changed : Thing) × (load things id ≡ some old)
        × (eq_bytes obj.parent_id old.meta.id ≡ false)
        × (changed.meta.id ≡ old.meta.id)
        × (changed.meta.tenant ≡ old.meta.tenant)
        × IsMove fuel env things obj.parent_id old.meta.id old.parent changed.parent
        × (things' ≡ store things id changed)
  unfolding update
  update-entry id version t things' saving h = elim (Option-cases (load things id)) [
    | inl n ↦ absurd (failed-ne-done not_exist (things', t) (rw (update, n) at h))
    | inr (old, l) ↦
        let (u, v, h1) =
          bind_done (validate_thing_update obj old) (update_thing fuel env things id version obj)
            (things', t) (rw (update, l) at h) in
        let (typed, v1) =
          guard_done (not (eq_bytes obj.type_id old.type_id)) immutable_field
            (if eq_bytes obj.parent_id old.meta.id then failed invalid_parent else done old) u v in
        let (other, v2) =
          guard_done (eq_bytes obj.parent_id old.meta.id) invalid_parent (done old) u v1 in
        let same : u ≡ old = sym (done-inj old u v2) in
        let (stored, changed, l', i, n, m, e) = update_thing-entry id version old t things' saving (
          subst (λ (x : Thing). update_thing fuel env things id version obj x ≡ done (things', t))
            same h1) in
        let both : stored ≡ old = some-inj (sym l' ∙ l) in
        (
          old,
          changed,
          l,
          other,
          i ∙ ap (λ (x : Thing). x.meta.id) both,
          n ∙ ap (λ (x : Thing). x.meta.tenant) both,
          m,
          e,
        )
  ]
