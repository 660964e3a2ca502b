-- ===== src/Thing/Orphans.antt =====
-- pkg/model/thing/manager.go: what `deleteThing` does to the children of the thing.
use mathlib.Core.List.{Memᴰ}
use mathlib.Core.List.Memᴰ
use mathlib.Core.Path.{subst}
use harns.Prelude.{
  ℕ, ◌≡◌, ◌≢◌, refl, sym, ap, ◌∙◌, ◌⊎◌, inl, inr, arith, true, false, none, some, none-ne-some,
  List, [], ◌∷◌, Bool-cases, Option-cases, some-inj,
}
use harns.Prelude.Bytes.{eq_bytes, eq_bytes_self}
use harns.Prelude.Dict.{Dict, load, store, load-store}
use harns.Thing.{Thing, done}
use harns.Thing.Types.{is_empty}
use harns.Thing.Filter.{get_things}
use harns.Thing.Stored.{load-Mem}
use harns.Thing.Things.{ThingEnv, delete_thing, children_of, orphan, orphan_all}
use harns.Thing.Children.{IsOwned, parent-IsChild}
use harns.Thing.Moves.{IsKeyed, IsSavingThing}
use harns.Thing.Acyclic.{IsWellFormed}
use harns.Thing.Runs.{delete_thing-deletes, delete-IsWellFormed}

stored-alone :
    (things : Dict Thing) (id : List ℕ) (alone : Thing) (k : List ℕ) (x : Thing)
    → alone.parent ≡ none
    → load (store things id alone) k ≡ some x
    → (x.parent ≡ none) ⊎ ((eq_bytes id k ≡ false) × (load things k ≡ some x))
stored-alone things id alone k x free h = elim (Bool-cases (eq_bytes id k)) [
  | inl q ↦
      let e : some alone ≡ some x = sym (load-store things id alone k ∙ rw q refl) ∙ h in
      inl (sym (ap (λ (t : Thing). t.parent) (some-inj e)) ∙ free)
  | inr q ↦ inr (q, sym (load-store things id alone k ∙ rw q refl) ∙ h)
]

orphan-load :
    (env : ThingEnv) (things : Dict Thing) (t : Thing) (k : List ℕ) (x : Thing)
    → IsSavingThing env
    → load (orphan env things t) k ≡ some x
    → (x.parent ≡ none) ⊎ ((eq_bytes t.meta.id k ≡ false) × (load things k ≡ some x))
unfolding IsSavingThing
orphan-load env things t k x saving h =
    elim (Option-cases (env.save (record t { parent = none }))) [
      | inl n ↦
          stored-alone things t.meta.id (record t { parent = none }) k x refl (rw (orphan, n) at h)
      | inr (saved, s) ↦
          let (p, i, n) = saving (record t { parent = none }) saved s in
          stored-alone things t.meta.id
            (record saved { meta = record saved.meta { mod_time = env.now } }) k x p
            (rw (orphan, s) at h)
    ]

orphan_all-parent :
    (env : ThingEnv) (id : List ℕ) (ts : List Thing) (things : Dict Thing) (k : List ℕ) (x : Thing)
    → IsSavingThing env
    → ((k : List ℕ) (x : Thing)
        → load things k ≡ some x
        → x.parent ≡ some id
        → Memᴰ x ts × (x.meta.id ≡ k))
    → load (orphan_all env things ts) k ≡ some x
    → x.parent ≢ some id
orphan_all-parent env id [] things k x saving left h = λ q. let (m, i) = left k x h q in elim m [ ]
orphan_all-parent env id (t ∷ ts) things k x saving left h =
    let left' : (k : List ℕ) (x : Thing)
        → load (orphan env things t) k ≡ some x
        → x.parent ≡ some id
        → Memᴰ x ts × (x.meta.id ≡ k) =
      λ k x l q. elim (orphan-load env things t k x saving l) [
        | inl free ↦ absurd (none-ne-some id (sym free ∙ q))
        | inr kept ↦
            let (apart, l') = kept in
            let (m, i) = left k x l' q in
            elim (Memᴰ.cases_cons m) [
              | inl e ↦
                  let same : eq_bytes t.meta.id k ≡ true =
                    ap (λ (y : Thing). eq_bytes y.meta.id k) (sym e)
                    ∙ ap (λ (y : List ℕ). eq_bytes y k) i
                    ∙ eq_bytes_self k in
                  absurd (ground arith)
              | inr m' ↦ (m', i)
            ]
      ] in
    orphan_all-parent env id ts (orphan env things t) k x saving left' h

-- After a thing is deleted, one round of the loops that the deletion starts, for each of its children,
-- is enough: no thing has the deleted one as its parent any more, whether the store takes the children
-- or not. A child that it takes it answers with the thing that it was given.
pub delete_thing-orphan_all :
    (env : ThingEnv) (things things' : Dict Thing) (id version : List ℕ) (gone : Thing) (k : List ℕ)
    (x : Thing)
    → IsSavingThing env
    → IsWellFormed env.tenant things
    → delete_thing env things id version ≡ done (things', gone)
    → load (orphan_all env things' (get_things env.tenant things' (children_of id))) k ≡ some x
    → x.parent ≢ some id
unfolding IsWellFormed IsOwned IsKeyed
delete_thing-orphan_all env things things' id version gone k x saving formed h l =
    let (e, found) = delete_thing-deletes env things things' id version gone h in
    let (owned, keyed, acyclic) = formed in
    let named : is_empty id ≡ false =
      ap is_empty (sym (keyed id gone found)) ∙ (owned gone (load-Mem things id gone found)).1 in
    let formed' : IsWellFormed env.tenant things' =
      subst (λ (d : Dict Thing). IsWellFormed env.tenant d) (sym e)
        (delete-IsWellFormed env.tenant things id formed) in
    let (owned', keyed', acyclic') = formed' in
    orphan_all-parent env id (get_things env.tenant things' (children_of id)) things' k x saving
      (λ k x l q.
        let m = load-Mem things' k x l in
        (parent-IsChild env.tenant things' id x named ((owned' x m).0) m q, keyed' k x l))
      l
