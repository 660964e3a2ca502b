-- ===== src/Thing/Children.antt =====
-- pkg/model/thing/manager.go: `isMyChildThing` finds the things below a thing, and no other.
use mathlib.Core.List.{Permᴰ, Memᴰ}
use mathlib.Core.List.Memᴰ
use mathlib.Core.List.Permᴰ
use harns.Prelude.{
  ℕ, ◌≡◌, refl, sym, ap, ◌∙◌, ◌⊎◌, inl, inr, arith, Bool, true, false, some, List, [], ◌∷◌, ◌++◌,
  Bool-cases, Option-cases,
}
use harns.Prelude.Bytes.{eq_bytes, eq_bytes→eq, eq_bytes_self}
use harns.Prelude.Dict.{Dict}
use harns.Thing.{Thing}
use harns.Thing.Types.{is_empty}
use harns.Thing.Inherit.{values}
use harns.Thing.Filter.{
  get_things, get_things-sorted, parse_filter, name_predicates, matching, matches, has_parent_id,
}
use harns.Thing.Things.{children_of}

module _ {ℓ} {A : Type ℓ} where
  Permᴰ-Mem : {a : A} {xs ys : List A} → Permᴰ xs ys → Memᴰ a xs → Memᴰ a ys
  Permᴰ-Mem Permᴰ.nil m = m
  Permᴰ-Mem (Permᴰ.cons e p) (Memᴰ.head h) = Memᴰ.head (h ∙ e)
  Permᴰ-Mem (Permᴰ.cons e p) (Memᴰ.tail m) = Memᴰ.tail (Permᴰ-Mem p m)
  Permᴰ-Mem (Permᴰ.swap e e') (Memᴰ.head h) = Memᴰ.tail (Memᴰ.head (h ∙ e))
  Permᴰ-Mem (Permᴰ.swap e e') (Memᴰ.tail (Memᴰ.head h)) = Memᴰ.head (h ∙ e')
  Permᴰ-Mem (Permᴰ.swap e e') (Memᴰ.tail (Memᴰ.tail m)) = Memᴰ.tail (Memᴰ.tail m)
  Permᴰ-Mem (Permᴰ.trans p q) m = Permᴰ-Mem q (Permᴰ-Mem p m)

  pub append-Mem : {a : A} (xs ys : List A) → Memᴰ a (xs ++ ys) → Memᴰ a xs ⊎ Memᴰ a ys
  append-Mem [] ys m = inr m
  append-Mem (x ∷ xs) ys (Memᴰ.head h) = inl (Memᴰ.head h)
  append-Mem (x ∷ xs) ys (Memᴰ.tail m) = elim (append-Mem xs ys m) [
    | inl l ↦ inl (Memᴰ.tail l)
    | inr r ↦ inr r
  ]

  pub Mem-left : {a : A} (xs ys : List A) → Memᴰ a xs → Memᴰ a (xs ++ ys)
  Mem-left [] ys m = elim m [ ]
  Mem-left (x ∷ xs) ys (Memᴰ.head h) = Memᴰ.head h
  Mem-left (x ∷ xs) ys (Memᴰ.tail m) = Memᴰ.tail (Mem-left xs ys m)

  pub Mem-right : {a : A} (xs ys : List A) → Memᴰ a ys → Memᴰ a (xs ++ ys)
  Mem-right [] ys m = m
  Mem-right (x ∷ xs) ys m = Memᴰ.tail (Mem-right xs ys m)

module _ {A : Type 0} (ps : List (A → Bool)) where
  matching-Mem : {a : A} (vs : List A) → Memᴰ a (matching ps vs) → Memᴰ a vs × (matches ps a ≡ true)
  matching-Mem [] m = elim m [ ]
  matching-Mem (v ∷ vs) m = elim (Bool-cases (matches ps v)) [
    | inl q ↦ elim (Memᴰ.cases_cons (rw q at m)) [
      | inl e ↦ (Memᴰ.head e, ap (matches ps) e ∙ q)
      | inr m' ↦ let (l, r) = matching-Mem vs m' in (Memᴰ.tail l, r)
    ]
    | inr q ↦ let (l, r) = matching-Mem vs (rw q at m) in (Memᴰ.tail l, r)
  ]

  Mem-matching : {a : A} (vs : List A) → Memᴰ a vs → matches ps a ≡ true → Memᴰ a (matching ps vs)
  Mem-matching [] m e = elim m [ ]
  Mem-matching (v ∷ vs) (Memᴰ.head h) e =
      let q : matches ps v ≡ true = ap (matches ps) (sym h) ∙ e in rw q (Memᴰ.head h)
  Mem-matching (v ∷ vs) (Memᴰ.tail m) e = elim (Bool-cases (matches ps v)) [
    | inl q ↦ rw q (Memᴰ.tail (Mem-matching vs m e))
    | inr q ↦ rw q (Mem-matching vs m e)
  ]

-- The things that are stored, each with the tenant of the caller and an identifier.
unfoldable pub IsOwned : List ℕ → Dict Thing → Type 0
IsOwned tenant things =
    (t : Thing)
    → Memᴰ t (values things)
    → (eq_bytes tenant t.meta.tenant ≡ true) × (is_empty t.meta.id ≡ false)

abbrev pub IsChild : List ℕ → Dict Thing → List ℕ → Thing → Type 0
IsChild tenant things id t = Memᴰ t (get_things tenant things (children_of id))

module _ (tenant : List ℕ) (things : Dict Thing) where
  -- The children of a thing are the stored things whose parent it is.
  pub IsChild-parent :
      (id : List ℕ) (t : Thing)
      → is_empty id ≡ false
      → IsChild tenant things id t
      → Memᴰ t (values things) × (t.parent ≡ some id)
  unfolding parse_filter name_predicates
  IsChild-parent id t e m =
      let (d, p) = get_things-sorted tenant things (children_of id) in
      let (l, r) =
        matching-Mem (parse_filter (record (children_of id) { tenant = tenant })) (values things)
          (Permᴰ-Mem p m) in
      let own : matches ((λ (x : Thing). eq_bytes tenant x.meta.tenant) ∷ has_parent_id id ∷ []) t
          ≡ true =
        rw e at r in
      elim (Option-cases t.parent) [
        | inl none_there ↦ absurd (let no = rw none_there at own in ground arith)
        | inr (p, q) ↦
            let same : eq_bytes id p ≡ true = let own' = rw q at own in ground arith in
            (l, q ∙ ap some (sym (eq_bytes→eq id p same)))
      ]

  pub parent-IsChild :
      (id : List ℕ) (t : Thing)
      → is_empty id ≡ false
      → eq_bytes tenant t.meta.tenant ≡ true
      → Memᴰ t (values things)
      → t.parent ≡ some id
      → IsChild tenant things id t
  unfolding parse_filter name_predicates
  parent-IsChild id t e own m q =
      let (d, p) = get_things-sorted tenant things (children_of id) in
      let ok : matches ((λ (x : Thing). eq_bytes tenant x.meta.tenant) ∷ has_parent_id id ∷ []) t
          ≡ true =
        rw (own, q, eq_bytes_self id) refl in
      Permᴰ-Mem (Permᴰ.symm p) (
        Mem-matching (parse_filter (record (children_of id) { tenant = tenant })) (values things) m
          (rw e ok))
