-- ===== src/Thing/Reindex.antt =====
-- pkg/model/thing/manager.go: `indexThingType` rebuilds the map of the characteristics after a start.
use mathlib.Core.Path.{subst}
use harns.Prelude.{
  ℕ, suc, ◌≡◌, refl, sym, ap, ◌∙◌, inl, inr, false, none, List, [], ◌∷◌, ◌++◌, Bool-cases, or_else,
  or_else-none, none-ne-some, not, ◌&&◌,
}
use harns.Prelude.Bytes.{eq_bytes, eq_bytes→eq, eq_bytes-sym}
use harns.Prelude.Dict.{Dict, load, has_key, store, load_missing, load-store}
use harns.Thing.{
  ThingType, Characteristic, NewThingType, NewPropertySet, done, bind_done, guard_done, done-inj,
}
use harns.Thing.Types.{
  Env, trim_space, is_empty, type_id_of, add_characteristics, add_property_sets,
  create_property_set, append_property_set, new_thing_type, create_thing_type,
}
use harns.Thing.Nearest.{first_characteristic}
use harns.Thing.Forest.{save_thing_type-entry}
use harns.Thing.Indexed.{
  IsMirrored, append-IsMirrored, first_characteristic-append, create_thing_type-mirrored,
}

-- The loop of `indexThingType` over the characteristics.
unfoldable pub index_characteristics :
    Dict Characteristic → List Characteristic → Dict Characteristic
index_characteristics d [] = d
index_characteristics d (c ∷ cs) = index_characteristics (store d c.name c) cs

-- No name comes twice.
data IsDistinct : List Characteristic → Type 0 where
  nil : IsDistinct []
  cons :
      {c : Characteristic} {cs : List Characteristic}
      → first_characteristic cs c.name ≡ none
      → IsDistinct cs
      → IsDistinct (c ∷ cs)

append-IsDistinct :
    (cs : List Characteristic) (rc : Characteristic)
    → first_characteristic cs rc.name ≡ none
    → IsDistinct cs
    → IsDistinct (cs ++ rc ∷ [])
append-IsDistinct [] rc h d = cons refl nil
append-IsDistinct (c ∷ cs) rc h (cons free d) = elim (Bool-cases (eq_bytes c.name rc.name)) [
  | inl q ↦ absurd (none-ne-some c (sym h ∙ rw q refl))
  | inr q ↦
      let h' : first_characteristic cs rc.name ≡ none = rw q at h in
      let other : eq_bytes rc.name c.name ≡ false = eq_bytes-sym rc.name c.name ∙ q in
      let free' : first_characteristic (cs ++ rc ∷ []) c.name ≡ none =
        first_characteristic-append cs (rc ∷ []) c.name ∙ rw (free, other) refl in
      cons free' (append-IsDistinct cs rc h' d)
]

HasDistinct : ThingType → Type 0
HasDistinct ty = IsDistinct ty.characteristics

append-HasDistinct :
    (ty : ThingType) (rc : Characteristic)
    → has_key ty.characteristic_by_name rc.name ≡ false
    → IsMirrored ty
    → HasDistinct ty
    → HasDistinct (record ty {
      characteristics = ty.characteristics ++ rc ∷ [];
      characteristic_by_name = (rc.name, rc) ∷ ty.characteristic_by_name;
    })
unfolding HasDistinct IsMirrored
append-HasDistinct ty rc q m d =
    append-IsDistinct ty.characteristics rc
      (sym ((m rc.name).0) ∙ load_missing ty.characteristic_by_name rc.name q) d

add_characteristics-HasDistinct :
    (cs : List Characteristic) (ty : ThingType)
    → IsMirrored ty
    → HasDistinct ty
    → HasDistinct (add_characteristics ty cs)
unfolding add_characteristics
add_characteristics-HasDistinct [] ty m d = d
add_characteristics-HasDistinct (c ∷ cs) ty m d =
    let rc : Characteristic = record c { name = trim_space c.name } in
    elim (Bool-cases (has_key ty.characteristic_by_name (trim_space c.name))) [
      | inl q ↦ rw q (add_characteristics-HasDistinct cs ty m d)
      | inr q ↦ rw q (
          add_characteristics-HasDistinct cs _ (append-IsMirrored ty rc q m)
            (append-HasDistinct ty rc q m d))
    ]

add_property_sets-IsDistinct :
    (env : Env) (pss : List NewPropertySet) (i : ℕ) (ty made : ThingType)
    → add_property_sets env i ty pss ≡ done made
    → IsDistinct ty.characteristics
    → IsDistinct made.characteristics
unfolding add_property_sets
add_property_sets-IsDistinct env [] i ty made h d =
    subst (λ (x : ThingType). IsDistinct x.characteristics) (done-inj ty made h) d
add_property_sets-IsDistinct env (ps ∷ pss) i ty made h d =
    elim (Bool-cases (has_key ty.property_set_by_name (trim_space ps.name))) [
      | inl q ↦ add_property_sets-IsDistinct env pss (suc i) ty made (rw q at h) d
      | inr q ↦
          let (rps, e, rest) = bind_done (create_property_set env i ps ty) _ made (rw q at h) in
          add_property_sets-IsDistinct env pss (suc i) (append_property_set ty rps) made rest d
    ]

index_characteristics_lem :
    (cs : List Characteristic) (d : Dict Characteristic) (q : List ℕ)
    → IsDistinct cs
    → load (index_characteristics d cs) q ≡ or_else (first_characteristic cs q) (load d q)
unfolding index_characteristics
index_characteristics_lem [] d q h = refl
index_characteristics_lem (c ∷ cs) d q (cons free h) =
    let ih = index_characteristics_lem cs (store d c.name c) q h in
    elim (Bool-cases (eq_bytes c.name q)) [
      | inl e ↦
          let gone : first_characteristic cs q ≡ none =
            ap (first_characteristic cs) (sym (eq_bytes→eq c.name q e)) ∙ free in
          rw e (ih ∙ rw (gone, load-store d c.name c q, e) refl)
      | inr e ↦ rw e (ih ∙ rw (load-store d c.name c q, e) refl)
    ]

-- Indexing a thing type that was created, as happens when it is loaded at the next start, gives a map
-- that holds the same characteristic under every name as the map that its creation made.
pub index_characteristics-create_thing_type :
    (env : Env) (types types' : Dict ThingType) (obj : NewThingType) (made : ThingType) (q : List ℕ)
    → create_thing_type env types obj ≡ done (types', made)
    → load (index_characteristics [] made.characteristics) q ≡ load made.characteristic_by_name q
unfolding create_thing_type IsMirrored HasDistinct
index_characteristics-create_thing_type env types types' obj made q h =
    let new = new_thing_type env obj in
    let start = add_characteristics new obj.characteristics in
    let (fresh, h1) = guard_done (has_key types (type_id_of env.tenant obj.name)) _ _ _ h in
    let (parent, h2) =
      guard_done (not (is_empty obj.parent_type_id) && not (has_key types obj.parent_type_id)) _ _ _
        h1 in
    let (ty, e, kept) = bind_done (add_property_sets env 0 start obj.property_sets) _ _ h2 in
    let (same, saved, s, l) = save_thing_type-entry env types types' ty made kept in
    let distinct =
      add_property_sets-IsDistinct env obj.property_sets 0 start ty e
        (add_characteristics-HasDistinct obj.characteristics new (λ q. (refl, refl)) nil) in
    let distinct' : IsDistinct made.characteristics =
      subst (λ (x : ThingType). IsDistinct x.characteristics) same distinct in
    index_characteristics_lem made.characteristics [] q distinct'
    ∙ or_else-none (first_characteristic made.characteristics q)
    ∙ sym ((create_thing_type-mirrored env types types' obj made q h).0)
