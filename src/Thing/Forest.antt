-- ===== src/Thing/Forest.antt =====
-- The parents of the thing types of pkg/model/thing/manager.go: every chain of parents ends.
use mathlib.Core.Path.{subst}
use harns.Prelude.{
  ℕ, suc, ◌≡◌, refl, sym, ap, ◌∙◌, ◌⊎◌, inl, inr, arith, true, false, not, ◌&&◌, some, List, [],
  ◌∷◌, Bool-cases, Option-cases,
}
use harns.Prelude.Bytes.{eq_bytes, eq_bytes-sym}
use harns.Prelude.Dict.{Dict, load, has_key, store, delete, has_key-delete}
use harns.Thing.{
  ObjectMeta, internal, not_exist, guard_done, done-inj, failed-ne-done, bind_done, ThingType,
  Characteristic, NewPropertySet, NewThingType, done,
}
use harns.Thing.Types.{
  trim_space, base_agent, get_thing_type_by_id, Env, is_empty, type_id_of, create_thing_type,
  delete_thing_type, has_child_thing_type, add_characteristics, add_property_sets,
  create_property_set, append_property_set, save_thing_type, new_thing_type,
}

-- The parent of a thing type, if it has one, is there.
unfoldable pub HasParent : Dict ThingType → ThingType → Type 0
HasParent types ty = (is_empty ty.parent_type_id ≡ true) ⊎ (has_key types ty.parent_type_id ≡ true)

-- Every thing type stands under its own identifier, once, and its parent, if it has one, is a thing
-- type that is older: behind it in the list.
pub data IsForest : Dict ThingType → Type 0 where
  nil : IsForest []
  cons :
      {ty : ThingType} {es : Dict ThingType}
      → has_key es ty.meta.id ≡ false
      → HasParent es ty
      → IsForest es
      → IsForest ((ty.meta.id, ty) ∷ es)

-- The store answers with the thing type that it was given, up to what it fills in.
unfoldable pub IsSaving : Env → Type 0
IsSaving env =
    (ty saved : ThingType)
    → env.save ty ≡ some saved
    → (saved.parent_type_id ≡ ty.parent_type_id) × (saved.meta ≡ ty.meta)

-- The loops of `CreateThingType` keep the parent and the metadata.
IsKept : ThingType → ThingType → Type 0
IsKept ty made = (made.parent_type_id ≡ ty.parent_type_id) × (made.meta ≡ ty.meta)

add_characteristics-IsKept :
    (cs : List Characteristic) (ty : ThingType) → IsKept ty (add_characteristics ty cs)
unfolding add_characteristics IsKept
add_characteristics-IsKept [] ty = (refl, refl)
add_characteristics-IsKept (c ∷ cs) ty =
    let (p, q) = add_characteristics-IsKept cs _ in (p ∙ ground arith, q ∙ ground arith)

add_property_sets-IsKept :
    (env : Env) (pss : List NewPropertySet) (i : ℕ) (ty made : ThingType)
    → add_property_sets env i ty pss ≡ done made
    → IsKept ty made
unfolding add_property_sets IsKept
add_property_sets-IsKept env [] i ty made h = let e : ty ≡ made = cc in rw e (refl, refl)
add_property_sets-IsKept env (ps ∷ pss) i ty made h =
    elim (Bool-cases (has_key ty.property_set_by_name (trim_space ps.name))) [
      | inl q ↦ add_property_sets-IsKept env pss (suc i) ty made (rw q at h)
      | inr q ↦
          let (rps, e, rest) = bind_done (create_property_set env i ps ty) _ made (rw q at h) in
          add_property_sets-IsKept env pss (suc i) (append_property_set ty rps) made rest
    ]

pub save_thing_type-entry :
    (env : Env) (types types' : Dict ThingType) (ty made : ThingType)
    → save_thing_type env types ty ≡ done (types', made)
    → (ty ≡ made)
      × (saved : ThingType) × (env.save ty ≡ some saved)
      × (types' ≡ store types ty.meta.id saved)
save_thing_type-entry env types types' ty made h = elim (Option-cases (env.save ty)) [
  | inl q ↦ absurd (failed-ne-done internal (types', made) (rw (save_thing_type, q) at h))
  | inr (saved, q) ↦
      let e : (store types ty.meta.id saved, ty) ≡ (types', made) =
        done-inj _ _ (rw (save_thing_type, q) at h) in
      (
        ap (λ (x : Dict ThingType × ThingType). x.1) e,
        saved,
        q,
        sym (ap (λ (x : Dict ThingType × ThingType). x.0) e),
      )
]

-- A thing type is made only under an identifier that is free, with a parent that is there, and the
-- answer of the store is the one new entry.
create_thing_type-entry :
    (env : Env) (types types' : Dict ThingType) (obj : NewThingType) (made : ThingType)
    → create_thing_type env types obj ≡ done (types', made)
    → (has_key types (type_id_of env.tenant obj.name) ≡ false)
      × ((is_empty obj.parent_type_id ≡ true) ⊎ (has_key types obj.parent_type_id ≡ true))
      × (IsKept (new_thing_type env obj) made
          × (saved : ThingType) × (env.save made ≡ some saved)
          × (types' ≡ store types made.meta.id saved))
unfolding create_thing_type IsKept
create_thing_type-entry env types types' obj made h =
    let start = add_characteristics (new_thing_type env obj) obj.characteristics in
    let (fresh, h') = guard_done (has_key types (type_id_of env.tenant obj.name)) _ _ _ h in
    let (parent, h'') =
      guard_done (not (is_empty obj.parent_type_id) && not (has_key types obj.parent_type_id)) _ _ _
        h' in
    let (ty, e, kept) = bind_done (add_property_sets env 0 start obj.property_sets) _ _ h'' in
    let (same, saved, s, l) = save_thing_type-entry env types types' ty made kept in
    let (a, b) = add_characteristics-IsKept obj.characteristics (new_thing_type env obj) in
    let (c, d) = add_property_sets-IsKept env obj.property_sets 0 start ty e in
    let shown : ThingType → Type 0 = λ made.
      IsKept (new_thing_type env obj) made
      × (saved : ThingType) × (env.save made ≡ some saved)
      × (types' ≡ store types made.meta.id saved) in
    (fresh, ground arith, subst shown same ((c ∙ a, d ∙ b), saved, s, l))

-- Creating a thing type keeps the forest of thing types: its identifier is new, and its parent, if it
-- has one, is there already. The store answers with the thing type that it was given.
pub create_thing_type-IsForest :
    (env : Env) (types types' : Dict ThingType) (obj : NewThingType) (made : ThingType)
    → IsSaving env
    → IsForest types
    → create_thing_type env types obj ≡ done (types', made)
    → IsForest types'
unfolding IsSaving IsKept HasParent
create_thing_type-IsForest env types types' obj made saving f h =
    let (fresh, parent, ((p, m), saved, s, l)) =
      create_thing_type-entry env types types' obj made h in
    let (p', m') = saving made saved s in
    let key : made.meta.id ≡ saved.meta.id = ap (λ (x : ObjectMeta). x.id) (sym m') in
    let id : saved.meta.id ≡ type_id_of env.tenant obj.name =
      ap (λ (x : ObjectMeta). x.id) (m' ∙ m) in
    let up : saved.parent_type_id ≡ obj.parent_type_id = p' ∙ p in
    let free : has_key types saved.meta.id ≡ false = rw id fresh in
    let e : types' ≡ (saved.meta.id, saved) ∷ types = rw (l, key, free) refl in
    rw e (cons free (rw up parent) f)

delete-IsForest :
    (types : Dict ThingType) (id : List ℕ)
    → IsForest types
    → has_child_thing_type types id ≡ false
    → IsForest (delete types id)
unfolding HasParent has_child_thing_type
delete-IsForest [] id nil h = nil
delete-IsForest ((k, ty) ∷ es) id (cons fresh parent f) h =
    let rest = delete-IsForest es id f (ground arith) in
    elim (Bool-cases (eq_bytes ty.meta.id id)) [
      | inl q ↦ rw q rest
      | inr q ↦
          let other : eq_bytes id ty.parent_type_id ≡ false =
            eq_bytes-sym id ty.parent_type_id ∙ ground arith in
          let fresh' : has_key (delete es id) ty.meta.id ≡ false =
            rw (has_key-delete es id ty.meta.id) (ground arith) in
          let parent' : HasParent (delete es id) ty = elim parent [
            | inl e ↦ inl e
            | inr p ↦ inr (rw (has_key-delete es id ty.parent_type_id, other) p)
          ] in
          let kept : IsForest ((ty.meta.id, ty) ∷ delete es id) =
            cons {ty = ty} {es = delete es id} fresh' parent' rest in
          rw q kept
    ]

get_thing_type_by_id-load :
    (types : Dict ThingType) (id : List ℕ) (ty : ThingType)
    → get_thing_type_by_id types id ≡ done ty
    → load types id ≡ some ty
get_thing_type_by_id-load types id ty h = elim (Option-cases (load types id)) [
  | inl q ↦ absurd (failed-ne-done not_exist ty (rw (get_thing_type_by_id, q) at h))
  | inr (t, q) ↦ q ∙ ap some (done-inj t ty (rw (get_thing_type_by_id, q) at h))
]

delete_thing_type-entry :
    (env : Env) (types types' : Dict ThingType) (id version : List ℕ) (gone : ThingType)
    → delete_thing_type env types id version ≡ done (types', gone)
    → (has_child_thing_type types id ≡ false)
      × (eq_bytes id base_agent ≡ false)
      × (load types id ≡ some gone)
      × (eq_bytes gone.meta.version version ≡ true)
      × (types' ≡ delete types id)
unfolding delete_thing_type
delete_thing_type-entry env types types' id version gone h =
    let (main, h1) = guard_done (eq_bytes id base_agent) _ _ _ h in
    let (ty, e, h2) = bind_done (get_thing_type_by_id types id) _ _ h1 in
    let (child, h3) = guard_done (has_child_thing_type types id) _ _ _ h2 in
    let (same, h4) = guard_done (not (eq_bytes ty.meta.version version)) _ _ _ h3 in
    let (r, h5) = guard_done (not (env.remove id version)) _ _ _ h4 in
    let e' : (delete types id, ty) ≡ (types', gone) = done-inj _ _ h5 in
    let found : load types id ≡ some ty = get_thing_type_by_id-load types id ty e in
    let v : eq_bytes ty.meta.version version ≡ true = ground arith in
    let shown : ThingType → Type 0 =
      λ x. (load types id ≡ some x) × (eq_bytes x.meta.version version ≡ true) in
    let (l, w) = subst shown (ap (λ (x : Dict ThingType × ThingType). x.1) e') (found, v) in
    (child, main, l, w, sym (ap (λ (x : Dict ThingType × ThingType). x.0) e'))

-- Deleting a thing type keeps the forest of thing types: one that is a parent is not deleted.
pub delete_thing_type-IsForest :
    (env : Env) (types types' : Dict ThingType) (id version : List ℕ) (gone : ThingType)
    → IsForest types
    → delete_thing_type env types id version ≡ done (types', gone)
    → IsForest types'
delete_thing_type-IsForest env types types' id version gone f h =
    let (child, main, l, w, e) = delete_thing_type-entry env types types' id version gone h in
    rw e (delete-IsForest types id f child)
