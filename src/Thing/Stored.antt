-- ===== src/Thing/Stored.antt =====
-- The things that a map of pkg/model/thing/manager.go holds.
use mathlib.Core.List.{Memᴰ}
use mathlib.Core.List.Memᴰ
use harns.Prelude.{ℕ, ◌≡◌, sym, ◌⊎◌, inl, inr, some, some-inj, List, [], ◌∷◌, Bool-cases}
use harns.Prelude.Bytes.{eq_bytes}
use harns.Prelude.Dict.{Dict, load, has_key, replace, store, delete}
use harns.Thing.{Thing}
use harns.Thing.Inherit.{values}

pub load-Mem :
    (things : Dict Thing) (k : List ℕ) (t : Thing) → load things k ≡ some t → Memᴰ t (values things)
load-Mem [] k t h = cc
load-Mem (e ∷ es) k t h = elim (Bool-cases (eq_bytes e.0 k)) [
  | inl q ↦ Memᴰ.head (sym (some-inj (rw q at h)))
  | inr q ↦ Memᴰ.tail (load-Mem es k t (rw q at h))
]

replace-Mem :
    (things : Dict Thing) (k : List ℕ) (v t : Thing)
    → Memᴰ t (values (replace things k v))
    → (t ≡ v) ⊎ Memᴰ t (values things)
replace-Mem [] k v t m = elim m [ ]
replace-Mem (e ∷ es) k v t m = elim (Bool-cases (eq_bytes e.0 k)) [
  | inl q ↦ elim (Memᴰ.cases_cons (rw q at m)) [ inl h ↦ inl h | inr m' ↦ inr (Memᴰ.tail m') ]
  | inr q ↦ elim (Memᴰ.cases_cons (rw q at m)) [
    | inl h ↦ inr (Memᴰ.head h)
    | inr m' ↦ elim (replace-Mem es k v t m') [ inl h ↦ inl h | inr r ↦ inr (Memᴰ.tail r) ]
  ]
]

pub store-Mem :
    (things : Dict Thing) (k : List ℕ) (v t : Thing)
    → Memᴰ t (values (store things k v))
    → (t ≡ v) ⊎ Memᴰ t (values things)
store-Mem things k v t m = elim (Bool-cases (has_key things k)) [
  | inl q ↦ replace-Mem things k v t (rw q at m)
  | inr q ↦ Memᴰ.cases_cons (rw q at m)
]

pub delete-Mem :
    (things : Dict Thing) (k : List ℕ) (t : Thing)
    → Memᴰ t (values (delete things k))
    → Memᴰ t (values things)
delete-Mem [] k t m = elim m [ ]
delete-Mem (e ∷ es) k t m = elim (Bool-cases (eq_bytes e.0 k)) [
  | inl q ↦ Memᴰ.tail (delete-Mem es k t (rw q at m))
  | inr q ↦ elim (Memᴰ.cases_cons (rw q at m)) [
    | inl h ↦ Memᴰ.head h
    | inr m' ↦ Memᴰ.tail (delete-Mem es k t m')
  ]
]
