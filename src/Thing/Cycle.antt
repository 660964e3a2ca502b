-- ===== src/Thing/Cycle.antt =====
-- pkg/model/thing/manager.go: no thing stands below itself, and so `isMyChildThing` ends.
use mathlib.Core.List.{Memᴰ}
use harns.Prelude.{
  ℕ, zero, suc, ◌<◌, ◌≡◌, refl, sym, ap, ◌∙◌, ◌⊎◌, inl, inr, arith, Bool, true, false, none, some,
  List, [], ◌∷◌, Bool-cases, Option-cases, ◌||◌,
}
use harns.Prelude.Bytes.{eq_bytes, eq_bytes→eq}
use harns.Prelude.Dict.{Dict}
use harns.Thing.{Thing}
use harns.Thing.Types.{is_empty}
use harns.Thing.Inherit.{values}
use harns.Thing.Filter.{get_things}
use harns.Thing.Things.{children_of, children_of_all, is_id_of, is_below, is_my_child_thing}
use harns.Thing.Children.{IsOwned, IsChild, IsChild-parent, parent-IsChild}
use harns.Thing.Below.{
  IsBelow, child, deeper, IsBelow-child, children_of_all-Mem, is_my_child_thing-IsBelow,
}

-- There is a height that every parent has more of than its children.
unfoldable pub IsAcyclic : Dict Thing → Type 0
IsAcyclic things =
    (height : List ℕ → ℕ) × ((t : Thing) (p : List ℕ)
      → Memᴰ t (values things)
      → t.parent ≡ some p
      → height t.meta.id < height p)

module _ (tenant : List ℕ) (things : Dict Thing) (owned : IsOwned tenant things) where
  child-filled :
      (p : List ℕ) (t : Thing)
      → is_empty p ≡ false
      → IsChild tenant things p t
      → is_empty t.meta.id ≡ false
  unfolding IsOwned
  child-filled p t e k = let (m, q) = IsChild-parent tenant things p t e k in (owned t m).1

  pub IsBelow-filled :
      {p x : List ℕ} → is_empty p ≡ false → IsBelow tenant things p x → is_empty x ≡ false
  IsBelow-filled {p = p} e (child {t = t} k) = child-filled p t e k
  IsBelow-filled {p = p} e (deeper {t = t} k b) = IsBelow-filled (child-filled p t e k) b

  module _ (height : List ℕ → ℕ)
      (rises : (t : Thing) (p : List ℕ)
        → Memᴰ t (values things)
        → t.parent ≡ some p
        → height t.meta.id < height p) where
    child-lower :
        (p : List ℕ) (t : Thing)
        → is_empty p ≡ false
        → IsChild tenant things p t
        → height t.meta.id < height p
    child-lower p t e k = let (m, q) = IsChild-parent tenant things p t e k in rises t p m q

    is_below-total :
        (n : ℕ) (cs : List Thing) (x : List ℕ)
        → ((c : Thing) → Memᴰ c cs → (height c.meta.id < n) × (is_empty c.meta.id ≡ false))
        → (b : Bool) × (is_below (suc n) tenant things cs x ≡ some b)
    unfolding is_below
    is_below-total n [] x h = (false, refl)
    is_below-total zero (c ∷ cs) x h = absurd (omega (arith, h c (Memᴰ.head refl)))
    is_below-total (suc n) (c ∷ cs) x h = elim (Bool-cases (is_id_of (c ∷ cs) x)) [
      | inl q ↦ (true, rw q refl)
      | inr q ↦
          let lower : (k : Thing)
              → Memᴰ k (children_of_all tenant things (c ∷ cs))
              → (height k.meta.id < n) × (is_empty k.meta.id ≡ false) =
            λ k m.
              let (d, m', k') = children_of_all-Mem tenant things (c ∷ cs) k m in
              let (l, e) = h d m' in
              (omega (arith, child-lower d.meta.id k e k', l), child-filled d.meta.id k e k') in
          let (b, r) = is_below-total n (children_of_all tenant things (c ∷ cs)) x lower in
          (b, rw q r)
    ]

    pub is_my_child_thing-total :
        (my_self id : List ℕ)
        → is_empty my_self ≡ false
        → (b : Bool) × (is_my_child_thing (suc (height my_self)) tenant things my_self id ≡ some b)
    unfolding is_my_child_thing
    is_my_child_thing-total my_self id e =
        is_below-total (height my_self) (get_things tenant things (children_of my_self)) id
          (λ c k. (child-lower my_self c e k, child-filled my_self c e k))

    -- The thing itself and the things below it.
    unfoldable pub is_in_subtree : List ℕ → List ℕ → Bool
    is_in_subtree top x =
        eq_bytes top x || elim (is_my_child_thing (suc (height top)) tenant things top x) [
          | none ↦ false
          | some b ↦ b
        ]

    pub is_in_subtree-IsBelow :
        (top x : List ℕ) → is_in_subtree top x ≡ true → (top ≡ x) ⊎ IsBelow tenant things top x
    unfolding is_in_subtree
    is_in_subtree-IsBelow top x h = elim (Bool-cases (eq_bytes top x)) [
      | inl q ↦ inl (eq_bytes→eq top x q)
      | inr q ↦ elim (Option-cases (is_my_child_thing (suc (height top)) tenant things top x)) [
        | inl n ↦ absurd (let no : false ≡ true = rw (q, n) at h in ground arith)
        | inr (b, r) ↦
            let yes : b ≡ true = rw (q, r) at h in
            inr ((is_my_child_thing-IsBelow tenant things (suc (height top)) top x b r).0 yes)
      ]
    ]

    IsBelow-is_in_subtree :
        (top x : List ℕ)
        → is_empty top ≡ false
        → IsBelow tenant things top x
        → is_in_subtree top x ≡ true
    unfolding is_in_subtree
    IsBelow-is_in_subtree top x e below =
        let (b, r) = is_my_child_thing-total top x e in
        let yes : b ≡ true =
          (is_my_child_thing-IsBelow tenant things (suc (height top)) top x b r).1 below in
        rw (r, yes) (ground arith)

    -- What has its parent in the subtree is in it.
    pub parent-is_in_subtree :
        (top q : List ℕ) (t : Thing)
        → is_empty top ≡ false
        → Memᴰ t (values things)
        → t.parent ≡ some q
        → is_in_subtree top q ≡ true
        → is_in_subtree top t.meta.id ≡ true
    unfolding IsOwned
    parent-is_in_subtree top q t e m p h =
        let own = (owned t m).0 in
        IsBelow-is_in_subtree top t.meta.id e (elim (is_in_subtree-IsBelow top q h) [
          | inl same ↦ child (parent-IsChild tenant things top t e own m (p ∙ ap some (sym same)))
          | inr below ↦
              IsBelow-child tenant things below
                (parent-IsChild tenant things q t (IsBelow-filled e below) own m p)
        ])
