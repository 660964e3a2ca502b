-- ===== src/Thing/Tree.antt =====
-- pkg/model/thing/manager.go, pkg/model/thing/rest.go: the things as a tree that only knows the parent of
-- each identifier, and an update as one step on it.
use mathlib.Core.Path.{subst}
use harns.Prelude.{
  ℕ, ◌≡◌, ◌≢◌, refl, sym, ap, ◌∙◌, ◌⊎◌, inl, inr, arith, true, false, Option, none, some, some-inj,
  none-ne-some, List, Bool-cases, Option-cases, if◌then◌else◌,
}
use harns.Prelude.Bytes.{eq_bytes}
use harns.Prelude.Dict.{Dict, load, store, load-store}
use harns.Thing.{Thing, NewThing, done}
use harns.Thing.Types.{is_empty}
use harns.Thing.Stored.{load-Mem}
use harns.Thing.Things.{ThingEnv, is_my_child_thing}
use harns.Thing.Update.{update}
use harns.Thing.Children.{IsOwned, parent-IsChild}
use harns.Thing.Below.{IsBelow, child, IsBelow-child, is_my_child_thing-IsBelow}
use harns.Thing.Cycle.{IsBelow-filled}
use harns.Thing.Moves.{IsKeyed, IsSavingThing, IsMove, update-entry}
use harns.Thing.Acyclic.{IsWellFormed}

-- For every identifier: none where there is no thing, and else its parent, if it has one.
abbrev pub Tree : Type 0
Tree = List ℕ → Option (Option (List ℕ))

-- One is above another in a tree.
pub data IsAbove (tree : Tree) (top : List ℕ) : List ℕ → Type 0 where
  parent : {k : List ℕ} → tree k ≡ some (some top) → IsAbove tree top k
  higher : {k p : List ℕ} → tree k ≡ some (some p) → IsAbove tree top p → IsAbove tree top k

-- One identifier has another parent afterwards: the old one, none, or one that is in the tree, is not
-- the thing itself and does not stand below it.
pub data IsTreeStep (before after : Tree) (id : List ℕ) : Type 0 where
  place :
      (up : Option (List ℕ))
      → ((k : List ℕ) → after k ≡ (if eq_bytes id k then some up else before k))
      → (before id ≡ some up)
        ⊎ ((up ≡ none)
            ⊎ ((p : List ℕ) × (up ≡ some p)
                × (before p ≢ none)
                × (eq_bytes p id ≡ false)
                × (IsAbove before id p → ⊥)))
      → IsTreeStep before after id

-- What the tree knows of the things.
unfoldable pub tree_of : Dict Thing → Tree
tree_of things k = elim (load things k) [ none ↦ none | some t ↦ some t.parent ]

tree_of-load :
    (things : Dict Thing) (k : List ℕ) (p : Option (List ℕ))
    → tree_of things k ≡ some p
    → (t : Thing) × (load things k ≡ some t) × (t.parent ≡ p)
unfolding tree_of
tree_of-load things k p h = elim (Option-cases (load things k)) [
  | inl n ↦ absurd (none-ne-some p (rw (tree_of, n) at h))
  | inr (t, l) ↦ (t, l, some-inj (rw (tree_of, l) at h))
]

tree_of-store :
    (things : Dict Thing) (id : List ℕ) (v : Thing) (k : List ℕ)
    → tree_of (store things id v) k ≡ (if eq_bytes id k then some v.parent else tree_of things k)
unfolding tree_of
tree_of-store things id v k = elim (Bool-cases (eq_bytes id k)) [
  | inl q ↦
      let l : load (store things id v) k ≡ some v = load-store things id v k ∙ rw q refl in
      rw (q, tree_of, l) refl
  | inr q ↦
      let l : load (store things id v) k ≡ load things k = load-store things id v k ∙ rw q refl in
      rw (q, tree_of, l) refl
]

IsAbove-IsBelow :
    (tenant : List ℕ) (things : Dict Thing) (top k : List ℕ)
    → IsOwned tenant things
    → IsKeyed things
    → is_empty top ≡ false
    → IsAbove (tree_of things) top k
    → IsBelow tenant things top k
unfolding IsOwned IsKeyed
IsAbove-IsBelow tenant things top k owned keyed e (parent h) =
    let (t, l, q) = tree_of-load things k (some top) h in
    let m = load-Mem things k t l in
    subst (λ (x : List ℕ). IsBelow tenant things top x) (keyed k t l)
      (child (parent-IsChild tenant things top t e ((owned t m).0) m q))
IsAbove-IsBelow tenant things top k owned keyed e (higher {p = p} h above) =
    let (t, l, q) = tree_of-load things k (some p) h in
    let m = load-Mem things k t l in
    let below = IsAbove-IsBelow tenant things top p owned keyed e above in
    subst (λ (x : List ℕ). IsBelow tenant things top x) (keyed k t l)
      (IsBelow-child tenant things below (
        parent-IsChild tenant things p t (IsBelow-filled tenant things owned e below)
          ((owned t m).0) m q))

-- An update through the REST interface that succeeds on well-formed things is one step on the tree of
-- the parents: it changes the parent of the one thing only, and to one that is there and not below it.
-- The store answers with the thing that it was given.
pub update-IsTreeStep :
    (fuel : ℕ) (env : ThingEnv) (things things' : Dict Thing) (id version : List ℕ) (obj : NewThing)
    (t : Thing)
    → IsSavingThing env
    → IsWellFormed env.tenant things
    → update fuel env things id version obj ≡ done (things', t)
    → IsTreeStep (tree_of things) (tree_of things') id
unfolding IsWellFormed IsOwned IsKeyed IsMove tree_of
update-IsTreeStep fuel env things things' id version obj t saving (owned, keyed, acyclic) h =
    let (old, changed, l, other, i, n, move, e) =
      update-entry fuel env things obj id version t things' saving h in
    let named : old.meta.id ≡ id = keyed id old l in
    let filled : is_empty id ≡ false =
      ap is_empty (sym named) ∙ (owned old (load-Mem things id old l)).1 in
    let known : tree_of things id ≡ some old.parent = rw (tree_of, l) refl in
    subst (λ (d : Dict Thing). IsTreeStep (tree_of things) (tree_of d) id) (sym e)
      (place changed.parent (λ k. tree_of-store things id changed k)
        (elim move [
          | inl kept ↦ inl (known ∙ ap some (sym kept))
          | inr moved ↦ elim moved [
            | inl gone ↦ inr (inl gone)
            | inr (above, l', r, to) ↦
                let target : above.meta.id ≡ obj.parent_id = keyed obj.parent_id above l' in
                let r' : is_my_child_thing fuel env.tenant things id obj.parent_id ≡ some false =
                  subst
                    (λ (x : List ℕ).
                      is_my_child_thing fuel env.tenant things x obj.parent_id ≡ some false)
                    named r in
                inr (
                  inr (
                    obj.parent_id,
                    to ∙ ap some target,
                    λ no_entry. none-ne-some above.parent (sym no_entry ∙ rw (tree_of, l') refl),
                    ap (eq_bytes obj.parent_id) (sym named) ∙ other,
                    λ a.
                        let f : false ≡ true =
                          (is_my_child_thing-IsBelow env.tenant things fuel id obj.parent_id false
                              r').1
                            (IsAbove-IsBelow env.tenant things id obj.parent_id owned keyed filled
                              a) in
                        ground arith,
                  ))
          ]
        ]))
