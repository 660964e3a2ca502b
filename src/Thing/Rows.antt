-- ===== src/Thing/Rows.antt =====
-- pkg/model/thing/manager.go: `getThingCharacteristics`.
use mathlib.Core.List.{Memᴰ}
use harns.Prelude.{
  ℕ, ◌≡◌, refl, sym, ap, ◌∙◌, inl, inr, arith, Bool, true, false, Option, none, some, List, [], ◌∷◌,
  ◌++◌, Bool-cases, Option-cases, if◌then◌else◌, or_else,
}
use harns.Prelude.Int.{ℤ}
use harns.Prelude.Bytes.{eq_bytes, eq_bytes→eq, eq_bytes-sym}
use harns.Prelude.Dict.{Dict, load}
use harns.Thing.{
  Thing, Value, Characteristic, Datatype, Result, done, failed, panic, ◌>>=◌, not_exist, bind_done,
  done-inj, panic-ne-done,
}
use harns.Thing.Update.{has_value}
use harns.Thing.Values.{value_of}

-- A row of the answer of `getThingCharacteristics`.
pub record Row : Type 0 where
  pub name : List ℕ
  pub value : List ℕ
  pub unit : List ℕ
  pub length_of_text : ℤ
  pub data_type : Datatype
  pub searchable : Bool

abbrev pub row_for : List ℕ → List ℕ → Characteristic → Row
row_for name value c = record {
  name = name;
  value = value;
  unit = c.unit;
  length_of_text = c.length_of_text;
  data_type = c.data_type;
  searchable = c.searchable;
}

-- The loop over the values of the thing; the definition of a value may be nil.
unfoldable pub own_rows : List Value → Result (List Row)
own_rows [] = done []
own_rows (v ∷ vs) = elim v.definition [
  | none ↦ panic
  | some c ↦ own_rows vs >>= λ rows. done (row_for v.name v.value c ∷ rows)
]

-- The loop over the map of the characteristics.
unfoldable pub default_rows : List Value → Dict Characteristic → List Row
default_rows vs [] = []
default_rows vs (e ∷ es) =
    let rest = default_rows vs es in
    if has_value vs e.0
    then rest
    else row_for (Characteristic.name e.1) (Characteristic.default_value e.1) e.1 ∷ rest

-- `getThingCharacteristics`
unfoldable pub get_thing_characteristics : Dict Thing → List ℕ → Result (List Row)
unfolding own_rows default_rows
get_thing_characteristics things id = elim (load things id) [
  | none ↦ failed not_exist
  | some t ↦ own_rows t.characteristics >>= λ rows.
      done (rows ++ default_rows t.characteristics t.characteristic_by_name)
]

-- The first row of a name.
unfoldable pub row_of : List Row → List ℕ → Option Row
row_of [] q = none
row_of (r ∷ rs) q = let rest = row_of rs q in if eq_bytes r.name q then some r else rest

-- The row of a value of the thing's own.
unfoldable pub own_row : Option Value → Option Row
own_row none = none
own_row (some v) = elim v.definition [ none ↦ none | some c ↦ some (row_for v.name v.value c) ]

-- The row of a characteristic that the thing has no value for.
unfoldable pub default_row : Option Characteristic → Option Row
default_row none = none
default_row (some c) = some (row_for c.name c.default_value c)

row_of-append :
    (rs ss : List Row) (q : List ℕ) → row_of (rs ++ ss) q ≡ or_else (row_of rs q) (row_of ss q)
unfolding row_of
row_of-append [] ss q = refl
row_of-append (r ∷ rs) ss q =
    let rest = row_of-append rs ss q in
    elim (Bool-cases (eq_bytes r.name q)) [ inl e ↦ rw e refl | inr e ↦ rw e rest ]

own_rows-own_row :
    (vs : List Value) (rows : List Row) (q : List ℕ)
    → own_rows vs ≡ done rows
    → row_of rows q ≡ own_row (value_of vs q)
unfolding own_rows own_row value_of row_of
own_rows-own_row [] rows q h = ap (λ (rs : List Row). row_of rs q) (sym (done-inj [] rows h))
own_rows-own_row (v ∷ vs) rows q h = elim (Option-cases v.definition) [
  | inl n ↦ absurd (panic-ne-done rows (rw n at h))
  | inr (c, d) ↦
      let (rest, r, e) =
        bind_done (own_rows vs) (λ rows. done (row_for v.name v.value c ∷ rows)) rows (rw d at h) in
      let split : rows ≡ row_for v.name v.value c ∷ rest = sym (done-inj _ rows e) in
      let ih = own_rows-own_row vs rest q r in
      ap (λ (rs : List Row). row_of rs q) split ∙ elim (Bool-cases (eq_bytes v.name q)) [
        | inl same ↦ rw (same, d) refl
        | inr other ↦ rw other ih
      ]
]

own_row-there :
    (vs : List Value) (rows : List Row) (q : List ℕ)
    → own_rows vs ≡ done rows
    → has_value vs q ≡ true
    → (r : Row) × (own_row (value_of vs q) ≡ some r)
unfolding own_rows own_row value_of
own_row-there [] rows q h there = absurd (ground arith)
own_row-there (v ∷ vs) rows q h there = elim (Option-cases v.definition) [
  | inl n ↦ absurd (panic-ne-done rows (rw n at h))
  | inr (c, d) ↦
      let (rest, r, e) =
        bind_done (own_rows vs) (λ rows. done (row_for v.name v.value c ∷ rows)) rows (rw d at h) in
      elim (Bool-cases (eq_bytes v.name q)) [
        | inl same ↦ (row_for v.name v.value c, rw (same, d) refl)
        | inr other ↦
            let other' : eq_bytes q v.name ≡ false = eq_bytes-sym q v.name ∙ other in
            let (w, e') = own_row-there vs rest q r (rw other' at there) in (w, rw other e')
      ]
]

value_of_missing : (vs : List Value) (q : List ℕ) → has_value vs q ≡ false → value_of vs q ≡ none
unfolding value_of
value_of_missing [] q h = refl
value_of_missing (v ∷ vs) q h =
    let rest = value_of_missing vs q (ground arith) in
    let other : eq_bytes v.name q ≡ false = eq_bytes-sym v.name q ∙ ground arith in rw other rest

default_rows-default_row :
    (vs : List Value) (es : Dict Characteristic) (q : List ℕ)
    → ((e : List ℕ × Characteristic) → Memᴰ e es → Characteristic.name e.1 ≡ e.0)
    → has_value vs q ≡ false
    → row_of (default_rows vs es) q ≡ default_row (load es q)
unfolding default_rows default_row row_of
default_rows-default_row vs [] q named h = refl
default_rows-default_row vs (e ∷ es) q named h =
    let ih = default_rows-default_row vs es q (λ x m. named x (Memᴰ.tail m)) h in
    let name = named e (Memᴰ.head refl) in
    elim (Bool-cases (eq_bytes e.0 q)) [
      | inl same ↦
          let free : has_value vs e.0 ≡ false = ap (has_value vs) (eq_bytes→eq e.0 q same) ∙ h in
          let same' : eq_bytes (Characteristic.name e.1) q ≡ true =
            ap (λ (k : List ℕ). eq_bytes k q) name ∙ same in
          rw (free, same, same') refl
      | inr other ↦
          let other' : eq_bytes (Characteristic.name e.1) q ≡ false =
            ap (λ (k : List ℕ). eq_bytes k q) name ∙ other in
          elim (Bool-cases (has_value vs e.0)) [
            | inl hidden ↦ rw (hidden, other) ih
            | inr free ↦ rw (free, other, other') ih
          ]
    ]

-- `getThingCharacteristics` shows, for every name, the value that the thing itself has, and for a
-- characteristic that it has no value for, the default value. The map of the thing holds every
-- characteristic under its name.
pub get_thing_characteristics-rows :
    (things : Dict Thing) (id : List ℕ) (t : Thing) (rows : List Row) (q : List ℕ)
    → load things id ≡ some t
    → ((e : List ℕ × Characteristic)
        → Memᴰ e t.characteristic_by_name
        → Characteristic.name e.1 ≡ e.0)
    → get_thing_characteristics things id ≡ done rows
    → row_of rows q ≡ (
        if has_value t.characteristics q
        then own_row (value_of t.characteristics q)
        else default_row (load t.characteristic_by_name q))
unfolding get_thing_characteristics
get_thing_characteristics-rows things id t rows q l named h =
    let (own, o, e) =
      bind_done (own_rows t.characteristics)
        (λ rows. done (rows ++ default_rows t.characteristics t.characteristic_by_name)) rows
        (rw (get_thing_characteristics, l) at h) in
    let defaults = default_rows t.characteristics t.characteristic_by_name in
    let split : rows ≡ own ++ defaults = sym (done-inj (own ++ defaults) rows e) in
    let mine : row_of own q ≡ own_row (value_of t.characteristics q) =
      own_rows-own_row t.characteristics own q o in
    let both : row_of rows q
        ≡ or_else (own_row (value_of t.characteristics q)) (row_of defaults q) =
      ap (λ (rs : List Row). row_of rs q) split
      ∙ row_of-append own defaults q
      ∙ ap (λ (r : Option Row). or_else r (row_of defaults q)) mine in
    elim (Bool-cases (has_value t.characteristics q)) [
      | inl there ↦
          let (r, s) = own_row-there t.characteristics own q o there in
          rw (there, s) (both ∙ ap (λ (r : Option Row). or_else r (row_of defaults q)) s)
      | inr missing ↦
          let gone : own_row (value_of t.characteristics q) ≡ none =
            rw (value_of_missing t.characteristics q missing) (unfold own_row in refl) in
          rw missing (
            both
            ∙ ap (λ (r : Option Row). or_else r (row_of defaults q)) gone
            ∙ default_rows-default_row t.characteristics t.characteristic_by_name q named missing)
    ]
