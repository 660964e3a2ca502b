-- ===== src/Thing/Runs.antt =====
-- pkg/model/thing/manager.go: sequences of operations on the things of a tenant.
use mathlib.Core.Path.{subst}
use mathlib.Core.List.{Memᴰ}
use harns.Prelude.{
  ℕ, suc, ◌<◌, ◌≡◌, ◌≢◌, refl, sym, ap, ◌∙◌, inl, inr, arith, true, false, none, some, some-inj,
  none-ne-some, List, [], Bool-cases, Option-cases, if◌then◌else◌, not,
}
use harns.Prelude.Bytes.{eq_bytes, eq_bytes→eq, eq_bytes_self}
use harns.Prelude.Dict.{Dict, load, store, delete, load-delete}
use harns.Thing.{Thing, ThingType, NewThing, done, guard_done, done-inj, failed-ne-done, not_exist}
use harns.Thing.Types.{is_empty}
use harns.Thing.Stored.{load-Mem, store-Mem, delete-Mem}
use harns.Thing.Inherit.{values}
use harns.Thing.Things.{ThingEnv, create_thing, delete_thing, orphan, pointer_to}
use harns.Thing.Update.{update}
use harns.Thing.Children.{IsOwned}
use harns.Thing.Cycle.{IsAcyclic}
use harns.Thing.Moves.{IsKeyed, IsSavingThing}
use harns.Thing.Acyclic.{IsWellFormed, store-IsKeyed, store-IsOwned, update-IsWellFormed}
use harns.Thing.Creation.{create_thing-entry}

-- An identifier that no thing has, as its own or as its parent's, as that of a new UUID.
unfoldable pub IsFresh : Dict Thing → List ℕ → Type 0
IsFresh things id =
    (is_empty id ≡ false)
    × ((t : Thing)
        → Memᴰ t (values things)
        → (eq_bytes t.meta.id id ≡ false) × (t.parent ≢ some id))

create_thing-IsWellFormed :
    (fuel : ℕ) (env : ThingEnv) (types : Dict ThingType) (things things' : Dict Thing)
    (obj : NewThing) (made : Thing)
    → IsSavingThing env
    → IsFresh things env.uuid
    → IsWellFormed env.tenant things
    → create_thing fuel env types things obj ≡ done (things', made)
    → IsWellFormed env.tenant things'
unfolding IsWellFormed IsFresh IsAcyclic
create_thing-IsWellFormed fuel env types things things' obj made saving (named, fresh)
      (owned, keyed, acyclic) h =
    let (height, rises) = acyclic in
    let (new, i, n, p, e) = create_thing-entry fuel env types things things' obj made saving h in
    let own : eq_bytes env.tenant new.meta.tenant ≡ true =
      ap (eq_bytes env.tenant) n ∙ eq_bytes_self env.tenant in
    let height' : List ℕ → ℕ = λ x. if eq_bytes x env.uuid then 0 else suc (height x) in
    let rises' : (t : Thing) (q : List ℕ)
        → Memᴰ t (values (store things env.uuid new))
        → t.parent ≡ some q
        → height' t.meta.id < height' q =
      λ t q m to. elim (store-Mem things env.uuid new t m) [
        | inr there ↦
            let (other, apart) = fresh t there in
            let up : eq_bytes q env.uuid ≡ false = elim (Bool-cases (eq_bytes q env.uuid)) [
              | inl same ↦ absurd (apart (to ∙ ap some (eq_bytes→eq q env.uuid same)))
              | inr differ ↦ differ
            ] in
            let low = rises t q there to in rw (other, up) (omega arith)
        | inl same ↦
            let now : pointer_to things obj.parent_id ≡ some q =
              sym (ap (λ (x : Thing). x.parent) same ∙ p) ∙ to in
            let from : eq_bytes t.meta.id env.uuid ≡ true =
              ap (λ (x : List ℕ). eq_bytes x env.uuid) (ap (λ (x : Thing). x.meta.id) same ∙ i)
              ∙ eq_bytes_self env.uuid in
            elim (Option-cases (load things obj.parent_id)) [
              | inl gone ↦ absurd (none-ne-some q (rw (pointer_to, gone) at now))
              | inr (parent, l) ↦
                  let to' : parent.meta.id ≡ q = some-inj (rw (pointer_to, l) at now) in
                  let up : eq_bytes q env.uuid ≡ false =
                    ap (λ (x : List ℕ). eq_bytes x env.uuid) (sym to')
                    ∙ (fresh parent (load-Mem things obj.parent_id parent l)).0 in
                  rw (from, up) (omega arith)
            ]
      ] in
    subst (λ (d : Dict Thing). IsWellFormed env.tenant d) (sym e)
      (
        store-IsOwned env.tenant things env.uuid new owned own (ap is_empty i ∙ named),
        store-IsKeyed things env.uuid new keyed i,
        (height', rises'),
      )

pub delete-IsWellFormed :
    (tenant : List ℕ) (things : Dict Thing) (id : List ℕ)
    → IsWellFormed tenant things
    → IsWellFormed tenant (delete things id)
unfolding IsWellFormed IsOwned IsKeyed IsAcyclic
delete-IsWellFormed tenant things id (owned, keyed, acyclic) =
    let (height, rises) = acyclic in
    (
      λ t m. owned t (delete-Mem things id t m),
      λ k t l. elim (Bool-cases (eq_bytes id k)) [
        | inl q ↦ absurd (none-ne-some t (sym (load-delete things id k ∙ rw q refl) ∙ l))
        | inr q ↦ keyed k t (sym (load-delete things id k ∙ rw q refl) ∙ l)
      ],
      (height, λ t p m to. rises t p (delete-Mem things id t m) to),
    )

pub delete_thing-deletes :
    (env : ThingEnv) (things things' : Dict Thing) (id version : List ℕ) (gone : Thing)
    → delete_thing env things id version ≡ done (things', gone)
    → (things' ≡ delete things id) × (load things id ≡ some gone)
unfolding delete_thing
delete_thing-deletes env things things' id version gone h = elim (Option-cases (load things id)) [
  | inl n ↦ absurd (failed-ne-done not_exist (things', gone) (rw (delete_thing, n) at h))
  | inr (t, l) ↦
      let (same, h1) =
        guard_done (not (eq_bytes t.meta.version version)) _ _ _ (rw (delete_thing, l) at h) in
      let (r, h2) = guard_done (not (env.remove id version)) _ _ _ h1 in
      let e : (delete things id, t) ≡ (things', gone) = done-inj _ _ h2 in
      (
        sym (ap (λ (x : Dict Thing × Thing). x.0) e),
        l ∙ ap some (ap (λ (x : Dict Thing × Thing). x.1) e),
      )
]

-- A thing that stands alone may be stored under its identifier.
alone-IsWellFormed :
    (tenant : List ℕ) (things : Dict Thing) (t alone : Thing)
    → Memᴰ t (values things)
    → alone.parent ≡ none
    → alone.meta.id ≡ t.meta.id
    → alone.meta.tenant ≡ t.meta.tenant
    → IsWellFormed tenant things
    → IsWellFormed tenant (store things t.meta.id alone)
unfolding IsWellFormed IsOwned IsAcyclic
alone-IsWellFormed tenant things t alone m none_left i n (owned, keyed, acyclic) =
    let (height, rises) = acyclic in
    let (mine, named) = owned t m in
    (
      store-IsOwned tenant things t.meta.id alone owned (ap (eq_bytes tenant) n ∙ mine)
          (ap is_empty i ∙ named),
      store-IsKeyed things t.meta.id alone keyed i,
      (
        height,
        λ x p m' to. elim (store-Mem things t.meta.id alone x m') [
          | inr there ↦ rises x p there to
          | inl same ↦
              absurd (none-ne-some p (sym (ap (λ (y : Thing). y.parent) same ∙ none_left) ∙ to))
        ],
      ),
    )

orphan-IsWellFormed :
    (env : ThingEnv) (things : Dict Thing) (t : Thing)
    → IsSavingThing env
    → Memᴰ t (values things)
    → IsWellFormed env.tenant things
    → IsWellFormed env.tenant (orphan env things t)
unfolding IsSavingThing
orphan-IsWellFormed env things t saving m formed =
    elim (Option-cases (env.save (record t { parent = none }))) [
      | inl n ↦
          rw (orphan, n)
            (alone-IsWellFormed env.tenant things t (record t { parent = none }) m refl refl refl
              formed)
      | inr (saved, s) ↦
          let (p, i, n) = saving (record t { parent = none }) saved s in
          rw (orphan, s) (alone-IsWellFormed env.tenant things t _ m p i n formed)
    ]

-- The things that a tenant's calls make of an empty map. Each call has its own surroundings, in which
-- the store answers with the thing that it was given and a new identifier is fresh; a round of the
-- loops that `deleteThing` starts for the children may come at any time.
pub data IsReachable (tenant : List ℕ) : Dict Thing → Type 0 where
  start : IsReachable tenant []
  created :
      {things things' : Dict Thing} (fuel : ℕ) (env : ThingEnv) (types : Dict ThingType)
      (obj : NewThing) (made : Thing)
      → env.tenant ≡ tenant
      → IsSavingThing env
      → IsFresh things env.uuid
      → create_thing fuel env types things obj ≡ done (things', made)
      → IsReachable tenant things
      → IsReachable tenant things'
  updated :
      {things things' : Dict Thing} (fuel : ℕ) (env : ThingEnv) (id version : List ℕ)
      (obj : NewThing) (t : Thing)
      → env.tenant ≡ tenant
      → IsSavingThing env
      → update fuel env things id version obj ≡ done (things', t)
      → IsReachable tenant things
      → IsReachable tenant things'
  deleted :
      {things things' : Dict Thing} (env : ThingEnv) (id version : List ℕ) (gone : Thing)
      → delete_thing env things id version ≡ done (things', gone)
      → IsReachable tenant things
      → IsReachable tenant things'
  orphaned :
      {things : Dict Thing} (env : ThingEnv) (t : Thing)
      → env.tenant ≡ tenant
      → IsSavingThing env
      → Memᴰ t (values things)
      → IsReachable tenant things
      → IsReachable tenant (orphan env things t)

-- Whatever calls a tenant makes on an empty map, one after the other and in any order, the things are
-- well-formed: each is of the tenant and stands under its own identifier, and none stands below itself.
-- New identifiers are fresh, and the store answers with the thing that it was given.
pub reachable-IsWellFormed :
    (tenant : List ℕ) (things : Dict Thing) → IsReachable tenant things → IsWellFormed tenant things
unfolding IsWellFormed IsOwned IsKeyed IsAcyclic
reachable-IsWellFormed tenant things start =
    (λ t m. elim m [ ], λ k t l. absurd (none-ne-some t l), (λ x. 0, λ t p m to. elim m [ ]))
reachable-IsWellFormed tenant things'
      (created {things = things} fuel env types obj made own saving fresh h run) =
    subst (λ (x : List ℕ). IsWellFormed x things') own
      (create_thing-IsWellFormed fuel env types things things' obj made saving fresh
        (subst (λ (x : List ℕ). IsWellFormed x things) (sym own)
          (reachable-IsWellFormed tenant things run))
        h)
reachable-IsWellFormed tenant things'
      (updated {things = things} fuel env id version obj t own saving h run) =
    subst (λ (x : List ℕ). IsWellFormed x things') own
      (update-IsWellFormed fuel env things things' id version obj t saving
        (subst (λ (x : List ℕ). IsWellFormed x things) (sym own)
          (reachable-IsWellFormed tenant things run))
        h)
reachable-IsWellFormed tenant things' (deleted {things = things} env id version gone h run) =
    subst (λ (d : Dict Thing). IsWellFormed tenant d)
      (sym ((delete_thing-deletes env things things' id version gone h).0))
      (delete-IsWellFormed tenant things id (reachable-IsWellFormed tenant things run))
reachable-IsWellFormed tenant things' (orphaned {things = things} env t own saving m run) =
    subst (λ (x : List ℕ). IsWellFormed x (orphan env things t)) own
      (orphan-IsWellFormed env things t saving m (
        subst (λ (x : List ℕ). IsWellFormed x things) (sym own)
          (reachable-IsWellFormed tenant things run)))
