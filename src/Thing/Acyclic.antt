-- ===== src/Thing/Acyclic.antt =====
-- pkg/model/thing/manager.go, pkg/model/thing/rest.go: creating, updating and deleting things makes no
-- cycle of parents.
use mathlib.Core.Path.{subst}
use mathlib.Core.List.{Memᴰ}
use harns.Prelude.{
  ℕ, suc, ◌+◌, ◌<◌, ◌≡◌, refl, sym, ap, ◌∙◌, ◌↔◌, inl, inr, arith, Bool, true, false, some,
  some-inj, none-ne-some, List, Bool-cases, if◌then◌else◌,
}
use harns.Prelude.Bytes.{eq_bytes, eq_bytes→eq, eq_bytes_self}
use harns.Prelude.Dict.{Dict, store, load-store}
use harns.Thing.{Thing, NewThing, done}
use harns.Thing.Types.{is_empty}
use harns.Thing.Stored.{load-Mem, store-Mem}
use harns.Thing.Inherit.{values}
use harns.Thing.Things.{ThingEnv, is_my_child_thing}
use harns.Thing.Update.{update}
use harns.Thing.Children.{IsOwned}
use harns.Thing.Below.{IsBelow, is_my_child_thing-IsBelow}
use harns.Thing.Cycle.{
  IsAcyclic, is_in_subtree, is_in_subtree-IsBelow, parent-is_in_subtree, is_my_child_thing-total,
}
use harns.Thing.Moves.{IsKeyed, IsSavingThing, IsMove, update-entry}

-- The things of a manager: each of the tenant, under its own identifier, and none below itself.
unfoldable pub IsWellFormed : List ℕ → Dict Thing → Type 0
IsWellFormed tenant things = IsOwned tenant things × IsKeyed things × IsAcyclic things

-- On well-formed things `isMyChildThing` returns, for every thing and with enough fuel, and says
-- whether the other thing stands below it, in any generation.
pub is_my_child_thing-decides :
    (tenant : List ℕ) (things : Dict Thing) (my_self id : List ℕ)
    → IsWellFormed tenant things
    → is_empty my_self ≡ false
    → (fuel : ℕ) × (b : Bool) × (is_my_child_thing fuel tenant things my_self id ≡ some b)
      × ((b ≡ true) ↔ IsBelow tenant things my_self id)
unfolding IsWellFormed IsAcyclic
is_my_child_thing-decides tenant things my_self id (owned, keyed, acyclic) e =
    let (height, rises) = acyclic in
    let (b, r) = is_my_child_thing-total tenant things owned height rises my_self id e in
    (
      suc (height my_self),
      b,
      r,
      is_my_child_thing-IsBelow tenant things (suc (height my_self)) my_self id b r,
    )

-- A thing that is not in the subtree of another may become its parent: what is not in the subtree is
-- lifted over it.
module _ (tenant : List ℕ) (things : Dict Thing) (owned : IsOwned tenant things)
    (height : List ℕ → ℕ)
    (rises : (t : Thing) (p : List ℕ)
      → Memᴰ t (values things)
      → t.parent ≡ some p
      → height t.meta.id < height p)
    (top : List ℕ) where
  lifted : List ℕ → ℕ
  lifted x =
      if is_in_subtree tenant things owned height rises top x
      then height x
      else height x + suc (height top)

  lifted-rises :
      (t : Thing) (p : List ℕ)
      → is_empty top ≡ false
      → Memᴰ t (values things)
      → t.parent ≡ some p
      → lifted t.meta.id < lifted p
  unfolding lifted
  lifted-rises t p e m q =
      elim (Bool-cases (is_in_subtree tenant things owned height rises top p)) [
        | inl inside ↦
            let child =
              parent-is_in_subtree tenant things owned height rises top p t e m q inside in
            rw (inside, child) (rises t p m q)
        | inr outside ↦
            let up = rises t p m q in
            elim (Bool-cases (is_in_subtree tenant things owned height rises top t.meta.id)) [
              | inl c ↦ rw (outside, c) (omega arith)
              | inr c ↦ rw (outside, c) (omega arith)
            ]
      ]

  lifted-top :
      (p : List ℕ)
      → is_in_subtree tenant things owned height rises top p ≡ false
      → lifted top < lifted p
  unfolding lifted is_in_subtree
  lifted-top p outside =
      let inside : is_in_subtree tenant things owned height rises top top ≡ true =
        rw (is_in_subtree, eq_bytes_self top) refl in
      rw (inside, outside) (omega arith)

  -- A thing that the search did not find below `top` is not in its subtree.
  found-outside :
      (fuel : ℕ) (p : List ℕ)
      → eq_bytes p top ≡ false
      → is_my_child_thing fuel tenant things top p ≡ some false
      → is_in_subtree tenant things owned height rises top p ≡ false
  found-outside fuel p other h =
      elim (Bool-cases (is_in_subtree tenant things owned height rises top p)) [
        | inr q ↦ q
        | inl q ↦ absurd (elim (is_in_subtree-IsBelow tenant things owned height rises top p q) [
          | inl same ↦
              let e : eq_bytes p top ≡ true = ap (eq_bytes p) same ∙ eq_bytes_self p in ground arith
          | inr below ↦
              let e : false ≡ true =
                (is_my_child_thing-IsBelow tenant things fuel top p false h).1 below in
              ground arith
        ])
      ]

update-IsAcyclic :
    (fuel : ℕ) (env : ThingEnv) (things : Dict Thing) (obj : NewThing) (old changed : Thing)
    (id : List ℕ)
    → IsOwned env.tenant things
    → IsKeyed things
    → IsAcyclic things
    → Memᴰ old (values things)
    → eq_bytes obj.parent_id old.meta.id ≡ false
    → changed.meta.id ≡ old.meta.id
    → IsMove fuel env things obj.parent_id old.meta.id old.parent changed.parent
    → IsAcyclic (store things id changed)
unfolding IsAcyclic IsMove IsKeyed IsOwned
update-IsAcyclic fuel env things obj old changed id owned keyed (height, rises) m other i move =
    let top = old.meta.id in
    let e = (owned old m).1 in
    let before = lifted-rises env.tenant things owned height rises top in
    (
      lifted env.tenant things owned height rises top,
      λ t p m' q. elim (store-Mem things id changed t m') [
        | inr there ↦ before t p e there q
        | inl same ↦
            let now : changed.parent ≡ some p = sym (ap (λ (x : Thing). x.parent) same) ∙ q in
            let from : t.meta.id ≡ top = ap (λ (x : Thing). x.meta.id) same ∙ i in
            let goes : lifted env.tenant things owned height rises top top
                < lifted env.tenant things owned height rises top p =
              elim move [
                | inl kept ↦ before old p e m (sym kept ∙ now)
                | inr moved ↦ elim moved [
                  | inl gone ↦ absurd (none-ne-some p (sym gone ∙ now))
                  | inr (parent, l, r, to) ↦
                      let p_id : parent.meta.id ≡ p = some-inj (sym to ∙ now) in
                      let target : obj.parent_id ≡ p = sym (keyed obj.parent_id parent l) ∙ p_id in
                      subst
                        (λ (x : List ℕ).
                          lifted env.tenant things owned height rises top top
                          < lifted env.tenant things owned height rises top x)
                        target
                        (lifted-top env.tenant things owned height rises top obj.parent_id (
                          found-outside env.tenant things owned height rises top fuel obj.parent_id
                            other r))
                ]
              ] in
            subst
              (λ (x : List ℕ).
                lifted env.tenant things owned height rises top x
                < lifted env.tenant things owned height rises top p)
              (sym from) goes
      ],
    )

pub store-IsKeyed :
    (things : Dict Thing) (id : List ℕ) (v : Thing)
    → IsKeyed things
    → v.meta.id ≡ id
    → IsKeyed (store things id v)
unfolding IsKeyed
store-IsKeyed things id v keyed i k x at = elim (Bool-cases (eq_bytes id k)) [
  | inl q ↦
      let found : some v ≡ some x = sym (load-store things id v k ∙ rw q refl) ∙ at in
      sym (ap (λ (y : Thing). y.meta.id) (some-inj found)) ∙ i ∙ eq_bytes→eq id k q
  | inr q ↦ keyed k x (sym (load-store things id v k ∙ rw q refl) ∙ at)
]

pub store-IsOwned :
    (tenant : List ℕ) (things : Dict Thing) (id : List ℕ) (v : Thing)
    → IsOwned tenant things
    → eq_bytes tenant v.meta.tenant ≡ true
    → is_empty v.meta.id ≡ false
    → IsOwned tenant (store things id v)
unfolding IsOwned
store-IsOwned tenant things id v owned mine named x m = elim (store-Mem things id v x m) [
  | inr there ↦ owned x there
  | inl same ↦ (
    ap (λ (y : Thing). eq_bytes tenant y.meta.tenant) same ∙ mine,
    ap (λ (y : Thing). is_empty y.meta.id) same ∙ named,
  )
]

-- An update through the REST interface that succeeds keeps the things well-formed, whatever parent the
-- request names: none stands below itself afterwards. The store answers with the thing that it was
-- given.
pub update-IsWellFormed :
    (fuel : ℕ) (env : ThingEnv) (things things' : Dict Thing) (id version : List ℕ) (obj : NewThing)
    (t : Thing)
    → IsSavingThing env
    → IsWellFormed env.tenant things
    → update fuel env things id version obj ≡ done (things', t)
    → IsWellFormed env.tenant things'
unfolding IsWellFormed IsOwned IsKeyed
update-IsWellFormed fuel env things things' id version obj t saving (owned, keyed, acyclic) h =
    let (old, changed, l, other, i, n, move, e) =
      update-entry fuel env things obj id version t things' saving h in
    let m = load-Mem things id old l in
    let (mine, named) = owned old m in
    subst (λ (d : Dict Thing). IsWellFormed env.tenant d) (sym e)
      (
        store-IsOwned env.tenant things id changed owned (ap (eq_bytes env.tenant) n ∙ mine)
            (ap is_empty i ∙ named),
        store-IsKeyed things id changed keyed (i ∙ keyed id old l),
        update-IsAcyclic fuel env things obj old changed id owned keyed acyclic m other i move,
      )
