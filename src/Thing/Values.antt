-- ===== src/Thing/Values.antt =====
-- pkg/model/thing/manager.go: the values of the characteristics of a thing after an update.
use harns.Prelude.{
  ℕ, ◌≡◌, refl, sym, ap, ◌∙◌, inl, inr, arith, true, false, Option, none, some, List, [], ◌∷◌, ◌++◌,
  Bool-cases, if◌then◌else◌, or_else, or_else-none, or_else_assoc,
}
use harns.Prelude.Bytes.{eq_bytes, eq_bytes→eq, eq_bytes-sym}
use harns.Prelude.Dict.{Dict, load}
use harns.Thing.{Thing, Value, NewThing, NewValue, Characteristic}
use harns.Thing.Things.{ThingEnv}
use harns.Thing.Update.{upsert_values, update_values, delete_values, has_value}

-- The first value of a name.
unfoldable pub value_of : List Value → List ℕ → Option Value
value_of [] q = none
value_of (v ∷ vs) q = let rest = value_of vs q in if eq_bytes v.name q then some v else rest

-- The first value of a name in a request, with the definition that the thing has for it.
unfoldable pub requested : Dict Characteristic → List NewValue → List ℕ → Option Value
requested defs [] q = none
requested defs (c ∷ cs) q =
    let rest = requested defs cs q in
    if eq_bytes c.name q
    then some (record { name = c.name; value = c.value; definition = load defs c.name })
    else rest

value_of-append :
    (vs ws : List Value) (q : List ℕ)
    → value_of (vs ++ ws) q ≡ or_else (value_of vs q) (value_of ws q)
unfolding value_of
value_of-append [] ws q = refl
value_of-append (v ∷ vs) ws q =
    let rest = value_of-append vs ws q in
    elim (Bool-cases (eq_bytes v.name q)) [ inl e ↦ rw e refl | inr e ↦ rw e rest ]

has_value-value_of :
    (vs : List Value) (q : List ℕ) → has_value vs q ≡ true → (v : Value) × (value_of vs q ≡ some v)
unfolding value_of
has_value-value_of [] q h = absurd (ground arith)
has_value-value_of (v ∷ vs) q h = elim (Bool-cases (eq_bytes v.name q)) [
  | inl e ↦ (v, rw e refl)
  | inr e ↦
      let e' : eq_bytes q v.name ≡ false = eq_bytes-sym q v.name ∙ e in
      let (w, r) = has_value-value_of vs q (rw e' at h) in (w, rw e r)
]

upsert_values_lem :
    (defs : Dict Characteristic) (ncs : List NewValue) (vs : List Value) (q : List ℕ)
    → value_of (upsert_values defs vs ncs) q ≡ or_else (value_of vs q) (requested defs ncs q)
unfolding upsert_values requested
upsert_values_lem defs [] vs q = sym (or_else-none (value_of vs q))
upsert_values_lem defs (c ∷ cs) vs q =
    let new : Value = record { name = c.name; value = c.value; definition = load defs c.name } in
    elim (Bool-cases (has_value vs c.name)) [
      | inl there ↦ elim (Bool-cases (eq_bytes c.name q)) [
        | inl e ↦
            let (v, r) = has_value-value_of vs c.name there in
            let r' : value_of vs q ≡ some v = ap (value_of vs) (sym (eq_bytes→eq c.name q e)) ∙ r in
            rw there (upsert_values_lem defs cs vs q ∙ rw r' refl)
        | inr e ↦ rw there (upsert_values_lem defs cs vs q ∙ rw e refl)
      ]
      | inr missing ↦
          let one : value_of (new ∷ []) q ≡ (if eq_bytes c.name q then some new else none) =
            unfold value_of in refl in
          rw missing (
            upsert_values_lem defs cs (vs ++ new ∷ []) q
            ∙ ap (λ (o : Option Value). or_else o (requested defs cs q))
                (value_of-append vs (new ∷ []) q ∙ ap (or_else (value_of vs q)) one)
            ∙ or_else_assoc (value_of vs q) (if eq_bytes c.name q then some new else none)
                (requested defs cs q)
            ∙ ap (or_else (value_of vs q)) (ground arith))
    ]

-- After an update a thing has, for every name, the first value that the request has for it, and none
-- where the request has none: the old values are gone, those that the request repeats too.
pub update_values-requested :
    (env : ThingEnv) (obj : NewThing) (old : Thing) (q : List ℕ)
    → value_of ((update_values env obj old).characteristics) q
      ≡ requested old.characteristic_by_name obj.characteristics q
unfolding delete_values value_of
update_values-requested env obj old q =
    upsert_values_lem old.characteristic_by_name obj.characteristics [] q
