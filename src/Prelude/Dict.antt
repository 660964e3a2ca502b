-- ===== src/Prelude/Dict.antt =====
-- A Go map (or a sync.Map) whose keys are texts, as an association list. The order of the entries has
-- no meaning; a new entry stands first.
use Prim.Native.Nat.{ℕ}
use mathlib.Core.Path.{◌≡◌, refl, sym, ap, ◌∙◌}
use mathlib.Core.Bool.{Bool, true, false, ◌&&◌, ◌||◌}
use mathlib.Core.Option.{Option, none, some}
use mathlib.Core.List.{List, [], ◌∷◌}
use mathlib.Core.Logic.{inl, inr}
use native.Mathlib.Omega.{arith}
use harns.Prelude.{if◌then◌else◌, Bool-cases, Option-cases, not, or_else, or_else-none}
use harns.Prelude.Bytes.{eq_bytes, eq_bytes→eq, eq_bytes-sym}

abbrev pub Dict {ℓ} : Type ℓ → Type ℓ
Dict V = List (List ℕ × V)

module _ {ℓ} {V : Type ℓ} where
  abbrev pub load : Dict V → List ℕ → Option V
  load [] k = none
  load (e ∷ es) k = let rest = load es k in if eq_bytes e.0 k then some e.1 else rest

  abbrev pub has_key : Dict V → List ℕ → Bool
  has_key [] k = false
  has_key (e ∷ es) k = eq_bytes e.0 k || has_key es k

  -- The value of a key that is there.
  abbrev pub replace : Dict V → List ℕ → V → Dict V
  replace [] k v = []
  replace (e ∷ es) k v =
      let rest = replace es k v in if eq_bytes e.0 k then (e.0, v) ∷ es else e ∷ rest

  abbrev pub store : Dict V → List ℕ → V → Dict V
  store d k v = if has_key d k then replace d k v else (k, v) ∷ d

  abbrev pub delete : Dict V → List ℕ → Dict V
  delete [] k = []
  delete (e ∷ es) k = let rest = delete es k in if eq_bytes e.0 k then rest else e ∷ rest

  pub has_key-load : (d : Dict V) (k : List ℕ) → has_key d k ≡ true → (v : V) × (load d k ≡ some v)
  has_key-load [] k h = ground arith
  has_key-load (e ∷ es) k h = elim (Bool-cases (eq_bytes e.0 k)) [
    | inl q ↦ (e.1, rw q refl)
    | inr q ↦ let (v, l) = has_key-load es k (ground arith) in (v, rw q l)
  ]

  pub load-has_key : (d : Dict V) (k : List ℕ) (v : V) → load d k ≡ some v → has_key d k ≡ true
  load-has_key [] k v h = cc
  load-has_key (e ∷ es) k v h = elim (Bool-cases (eq_bytes e.0 k)) [
    | inl q ↦ rw q refl
    | inr q ↦ rw q (load-has_key es k v (rw q at h))
  ]

  pub has_key-replace :
      (d : Dict V) (k : List ℕ) (v : V) (q : List ℕ) → has_key (replace d k v) q ≡ has_key d q
  has_key-replace [] k v q = refl
  has_key-replace (e ∷ es) k v q = let ih = has_key-replace es k v q in ground arith

  pub load-replace :
      (d : Dict V) (k : List ℕ) (v : V) (q : List ℕ)
      → load (replace d k v) q ≡ (if eq_bytes k q && has_key d k then some v else load d q)
  load-replace [] k v q = ground arith
  load-replace (e ∷ es) k v q = elim (Bool-cases (eq_bytes e.0 k)) [
    | inl h ↦ rw (h, eq_bytes→eq e.0 k h) (ground arith)
    | inr h ↦ elim (Bool-cases (eq_bytes e.0 q)) [
      | inl g ↦
          let apart : eq_bytes k q ≡ false =
            ap (eq_bytes k) (sym (eq_bytes→eq e.0 q g)) ∙ eq_bytes-sym k e.0 ∙ h in
          rw (h, g, apart) refl
      | inr g ↦ rw (h, g) (load-replace es k v q)
    ]
  ]

  pub load-store :
      (d : Dict V) (k : List ℕ) (v : V) (q : List ℕ)
      → load (store d k v) q ≡ (if eq_bytes k q then some v else load d q)
  load-store d k v q = elim (Bool-cases (has_key d k)) [
    | inl h ↦ rw (h, load-replace, h) (ground arith)
    | inr h ↦ rw h refl
  ]

  pub has_key-delete :
      (d : Dict V) (k q : List ℕ) → has_key (delete d k) q ≡ (not (eq_bytes k q) && has_key d q)
  has_key-delete [] k q = ground arith
  has_key-delete (e ∷ es) k q = elim (Bool-cases (eq_bytes e.0 k)) [
    | inl h ↦ rw (h, eq_bytes→eq e.0 k h, has_key-delete es k q) (ground arith)
    | inr h ↦ elim (Bool-cases (eq_bytes e.0 q)) [
      | inl g ↦
          let apart : eq_bytes k q ≡ false =
            ap (eq_bytes k) (sym (eq_bytes→eq e.0 q g)) ∙ eq_bytes-sym k e.0 ∙ h in
          rw (h, g, apart) refl
      | inr g ↦ rw (h, g) (has_key-delete es k q)
    ]
  ]

  pub load-delete :
      (d : Dict V) (k q : List ℕ) → load (delete d k) q ≡ (if eq_bytes k q then none else load d q)
  load-delete [] k q = ground arith
  load-delete (e ∷ es) k q = elim (Bool-cases (eq_bytes e.0 k)) [
    | inl h ↦ rw (h, eq_bytes→eq e.0 k h, load-delete es k q) (ground arith)
    | inr h ↦ elim (Bool-cases (eq_bytes e.0 q)) [
      | inl g ↦
          let apart : eq_bytes k q ≡ false =
            ap (eq_bytes k) (sym (eq_bytes→eq e.0 q g)) ∙ eq_bytes-sym k e.0 ∙ h in
          rw (h, g, apart) refl
      | inr g ↦ rw (h, g) (load-delete es k q)
    ]
  ]

  pub load_missing : (d : Dict V) (k : List ℕ) → has_key d k ≡ false → load d k ≡ none
  load_missing d k h = elim (Option-cases (load d k)) [
    | inl q ↦ q
    | inr (v, q) ↦ let there : has_key d k ≡ true = load-has_key d k v q in absurd (ground arith)
  ]

  -- A value that counts only where its key is free.
  abbrev pub offer : Dict V → List ℕ → V → Dict V
  offer d k v = if has_key d k then d else store d k v

  pub load-offer :
      (d : Dict V) (k : List ℕ) (v : V) (q : List ℕ)
      → load (offer d k v) q ≡ or_else (load d q) (if eq_bytes k q then some v else none)
  load-offer d k v q = elim (Bool-cases (has_key d k)) [
    | inl h ↦ elim (Bool-cases (eq_bytes k q)) [
      | inl g ↦
          let (w, l) = has_key-load d k h in
          let l' : load d q ≡ some w = rw (sym (eq_bytes→eq k q g)) l in rw (h, g, l') refl
      | inr g ↦ rw (h, g) (sym (or_else-none (load d q)))
    ]
    | inr h ↦
        let new : load (offer d k v) q ≡ (if eq_bytes k q then some v else load d q) =
          ap (λ (m : Dict V). load m q) (rw h refl) ∙ load-store d k v q in
        elim (Bool-cases (eq_bytes k q)) [
          | inl g ↦
              let l : load d q ≡ none = rw (sym (eq_bytes→eq k q g)) (load_missing d k h) in
              new ∙ (rw (g, l) refl)
          | inr g ↦ new ∙ (rw g (sym (or_else-none (load d q))))
        ]
  ]
