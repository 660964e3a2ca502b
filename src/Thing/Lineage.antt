-- ===== src/Thing/Lineage.antt =====
-- The thing types above a thing type of pkg/model/thing/manager.go, and `GetRootThingType`.
use mathlib.Core.Path.{subst}
use harns.Prelude.{
  ℕ, zero, suc, ◌≤◌, ◌<◌, ◌≡◌, refl, sym, ap, ◌∙◌, ◌⊎◌, inl, inr, arith, true, false, some, List,
  [], ◌∷◌, length, Bool-cases, some-inj,
}
use harns.Prelude.Bytes.{eq_bytes, eq_bytes→eq}
use harns.Prelude.Dict.{Dict, load, has_key, load-has_key}
use harns.Thing.{ThingType}
use harns.Thing.Types.{is_empty, climb, get_root_thing_type}
use harns.Thing.Forest.{IsForest, nil, cons, HasParent}

-- A line is what the chain of parents meets from an identifier on: it ends at a thing type without a
-- parent.
pub data IsLine (types : Dict ThingType) : List ℕ → List ThingType → Type 0 where
  top : {id : List ℕ} → is_empty id ≡ true → IsLine types id []
  up :
      {id : List ℕ} {ty : ThingType} {line : List ThingType}
      → is_empty id ≡ false
      → load types id ≡ some ty
      → IsLine types ty.parent_type_id line
      → IsLine types id (ty ∷ line)

IsLine-weaken :
    {types : Dict ThingType} {id : List ℕ} {line : List ThingType} (k : List ℕ) (x : ThingType)
    → has_key types k ≡ false
    → IsLine types id line
    → IsLine ((k, x) ∷ types) id line
IsLine-weaken k x fresh (top e) = top e
IsLine-weaken {types = types} {id = id} k x fresh (up {ty = ty} e l above) =
    elim (Bool-cases (eq_bytes k id)) [
      | inl q ↦
          let there : has_key types k ≡ true =
            rw (eq_bytes→eq k id q) (load-has_key types id ty l) in
          absurd (ground arith)
      | inr q ↦ up e (rw q l) (IsLine-weaken k x fresh above)
    ]

-- In a forest every thing type has a line, no longer than the forest.
pub IsForest-IsLine :
    (types : Dict ThingType) (id : List ℕ)
    → IsForest types
    → (is_empty id ≡ true) ⊎ (has_key types id ≡ true)
    → (line : List ThingType) × IsLine types id line × (length line ≤ length types)
unfolding HasParent
IsForest-IsLine [] id nil (inl e) = ([], top e, omega arith)
IsForest-IsLine [] id nil (inr e) = absurd (ground arith)
IsForest-IsLine ((k, ty) ∷ es) id (cons fresh parent f) there = elim (Bool-cases (is_empty id)) [
  | inl e ↦ ([], top e, omega arith)
  | inr e ↦ elim (Bool-cases (eq_bytes ty.meta.id id)) [
    | inl q ↦
        let (line, above, n) = IsForest-IsLine es ty.parent_type_id f parent in
        (ty ∷ line, up e (rw q refl) (IsLine-weaken ty.meta.id ty fresh above), omega arith)
    | inr q ↦
        let (line, above, n) = IsForest-IsLine es id f (ground arith) in
        (line, IsLine-weaken ty.meta.id ty fresh above, omega arith)
  ]
]

abbrev pub last_of : ThingType → List ThingType → ThingType
last_of ty [] = ty
last_of ty (t ∷ ts) = last_of t ts

climb-last_of :
    {types : Dict ThingType} (line : List ThingType) (n : ℕ) (ty : ThingType)
    → IsLine types ty.parent_type_id line
    → length line < n
    → (climb n types ty ≡ some (last_of ty line))
      × (is_empty (ThingType.parent_type_id (last_of ty line)) ≡ true)
unfolding climb
climb-last_of line zero ty above h = absurd (omega arith)
climb-last_of [] (suc n) ty (top e) h = (rw e refl, e)
climb-last_of (t ∷ line) (suc n) ty (up e l above) h =
    rw (e, l) (climb-last_of line n t above (omega arith))

-- The line of a thing type starts with it.
pub IsLine-above :
    {types : Dict ThingType} {id : List ℕ} {line : List ThingType} (ty : ThingType)
    → is_empty id ≡ false
    → load types id ≡ some ty
    → IsLine types id line
    → (rest : List ThingType) × IsLine types ty.parent_type_id rest × (line ≡ ty ∷ rest)
IsLine-above ty e l (top e') = absurd (ground arith)
IsLine-above {types = types} ty e l (up {ty = t} {line = rest} e' l' above) =
    let same : t ≡ ty = some-inj (sym l' ∙ l) in
    (
      rest,
      subst (λ (x : ThingType). IsLine types x.parent_type_id rest) same above,
      ap (λ (x : ThingType). x ∷ rest) same,
    )

-- `GetRootThingType` ends on a forest of thing types, after at most one round for each of them, with
-- the last thing type of the line of parents, which has no parent itself.
pub get_root_thing_type-total :
    (types : Dict ThingType) (id : List ℕ) (ty : ThingType)
    → IsForest types
    → load types id ≡ some ty
    → is_empty id ≡ false
    → (line : List ThingType) × IsLine types id (ty ∷ line)
      × (get_root_thing_type (length types) types id ≡ some (some (last_of ty line)))
      × (is_empty (ThingType.parent_type_id (last_of ty line)) ≡ true)
unfolding get_root_thing_type
get_root_thing_type-total types id ty f l e =
    let (line, is, n) = IsForest-IsLine types id f (inr (load-has_key types id ty l)) in
    let (rest, above, same) = IsLine-above ty e l is in
    let short : length rest < length types =
      let m : length (ty ∷ rest) ≤ length types = rw same at n in omega arith in
    let (c, r) = climb-last_of rest (length types) ty above short in
    (rest, up e l above, rw (get_root_thing_type, l, c) refl, r)
