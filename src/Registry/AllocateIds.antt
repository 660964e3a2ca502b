-- ===== src/Registry/AllocateIds.antt =====
-- `allocateIDs` of pkg/consumer/instance/registry.go keeps the table of the consumers exclusive.
use harns.Prelude.{
  ◌*◌, ◌+◌, ◌-◌, inl, inr, Bool-cases, ltb, ℕ, zero, suc, ◌^◌, ◌≤◌, ◌<◌, ◌≡◌, refl, arith, Bool,
  true, false, Option, some, none, List, [], ◌∷◌, ◌++◌, length, get_elem?, get_elem?-snoc,
  get_elem?-set_self, get_elem?-get_or, get_or, set as set_elem, take,
}
use Prim.Native.String.{String}
use harns.BitSet.Access.{new_lem}
use harns.Registry.{
  release, acquire, set_all, ConsumerInfo, allocate, find_by_name, enter_at, enter, finish, collate,
  is_alive, allocate_ids,
}
use harns.Registry.Holders.{count_id, holders}
use harns.Registry.Exclusive.{expected_of, IsExclusive, HasRoom, holders-set, allocate-IsExclusive}

holders-append :
    (id : ℕ) (ws : List ConsumerInfo) (c : ConsumerInfo)
    → c.ids ≡ []
    → holders id (ws ++ c ∷ []) ≡ holders id ws
unfolding holders count_id
holders-append id [] c e = rw e (omega arith)
holders-append id (w ∷ ws) c e = omega (arith, holders-append id ws c e)

-- `collate` drops entries.
holders-collate :
    (heartbeat now id : ℕ) (ws : List ConsumerInfo)
    → holders id (collate heartbeat now ws) ≤ holders id ws
unfolding collate holders
holders-collate heartbeat now id [] = omega arith
holders-collate heartbeat now id (w ∷ ws) = ground (arith, holders-collate heartbeat now id ws)

-- An entry that `collate` keeps stands behind those that it keeps before it.
collate-place :
    (heartbeat now p : ℕ) (ws : List ConsumerInfo) {self : ConsumerInfo}
    → get_elem? ws p ≡ some self
    → is_alive heartbeat now self ≡ true
    → get_elem? (collate heartbeat now ws) (length (collate heartbeat now (take p ws))) ≡ some self
unfolding collate
collate-place heartbeat now p [] h alive = cc
collate-place heartbeat now zero (w ∷ ws) h alive = ground arith
collate-place heartbeat now (suc p) (w ∷ ws) h alive =
    ground (arith, collate-place heartbeat now p ws h alive)

find_by_name-lt :
    (ws : List ConsumerInfo) (name : String) (i : ℕ) → find_by_name ws name ≡ some i → i < length ws
unfolding find_by_name
find_by_name-lt [] name i h = cc
find_by_name-lt (w ∷ ws) name zero h = omega arith
find_by_name-lt (w ∷ ws) name (suc i) h = ground (arith, find_by_name-lt ws name i)

-- What `enter` does: `self` stands at its place, and no identifier is held more often.
abbrev Entered : List ConsumerInfo → ConsumerInfo × ℕ × List ConsumerInfo → Type 0
Entered ws (self, place, entered) =
    (get_elem? entered place ≡ some self) × ((id : ℕ) → holders id entered ≤ holders id ws)

enter_at-Entered :
    (name : String) (now : ℕ) (ws : List ConsumerInfo) (o : Option ℕ)
    → ((i : ℕ) → o ≡ some i → i < length ws)
    → Entered ws (enter_at name now ws o)
unfolding enter_at
enter_at-Entered name now ws none h =
    let self : ConsumerInfo = record { ids = []; name = name; recent_time = now } in
    (get_elem?-snoc ws self, λ id. omega (arith, holders-append id ws self refl))
enter_at-Entered name now ws (some i) h =
    let fresh : ConsumerInfo = record { ids = []; name = name; recent_time = now } in
    let self : ConsumerInfo = record (get_or ws i fresh) { recent_time = now } in
    (
      get_elem?-set_self ws i self (h i refl),
      λ id. omega (arith, holders-set id i ws self (get_elem?-get_or ws i fresh (h i refl))),
    )

enter-Entered : (name : String) (now : ℕ) (ws : List ConsumerInfo) → Entered ws (enter name now ws)
unfolding enter
enter-Entered name now ws =
    enter_at-Entered name now ws (find_by_name ws name) (find_by_name-lt ws name)

finish-IsExclusive :
    (kept : Bool) (ws : List ConsumerInfo) (place : ℕ) (self : ConsumerInfo) (o : Option (List ℕ))
    (ids : List ℕ) (written : List ConsumerInfo)
    → IsExclusive ws
    → (kept ≡ true
        → (out : List ℕ) → o ≡ some out
        → IsExclusive (set_elem ws place (record self { ids = out })))
    → finish kept ws place self o ≡ some (ids, written)
    → IsExclusive written
unfolding finish
finish-IsExclusive kept ws place self none ids written excl h e = cc
finish-IsExclusive true ws place self (some out) ids written excl h e =
    let same : set_elem ws place (record self { ids = out }) ≡ written = cc in
    rw (← same) (h refl out refl)
finish-IsExclusive false ws place self (some out) ids written excl h e =
    let same : ws ≡ written = cc in rw (← same) excl

-- The list in which `allocateIDs` finds `self`, and `self` there.
abbrev pub collated : String → ℕ → ℕ → ℕ → List ConsumerInfo → List ConsumerInfo
collated name heartbeat now now' stored = collate heartbeat now' (enter name now stored).2

abbrev pub entered_self : String → ℕ → List ConsumerInfo → ConsumerInfo
entered_self name now stored = (enter name now stored).0

-- `allocateIDs` keeps the list exclusive, for a `maxInstances` from 1 to 2 ^ 16 - 1: where it
-- returns, the list that it reads holds no identifier twice, and the one it collates has room for
-- the growth of `self`, the list that it writes holds no identifier twice.
pub allocate_ids-IsExclusive :
    (m : ℕ) (heartbeat : ℕ) (name : String) (now now' : ℕ) (locked : List ℕ)
    (stored : List ConsumerInfo) (ids : List ℕ) (written : List ConsumerInfo)
    → 0 < m
    → m < 2 ^ 16
    → IsExclusive stored
    → HasRoom m (entered_self name now stored) (collated name heartbeat now now' stored)
    → allocate_ids m heartbeat name now now' locked stored ≡ some (ids, written)
    → IsExclusive written
unfolding allocate_ids
allocate_ids-IsExclusive m heartbeat name now now' locked stored ids written pos small excl room h =
    let self = entered_self name now stored in
    let ws = collated name heartbeat now now' stored in
    let (here, fewer) = enter-Entered name now stored in
    let kept : IsExclusive ws = λ id.
      omega
        (arith, excl id, fewer id, holders-collate heartbeat now' id (enter name now stored).2) in
    finish-IsExclusive (is_alive heartbeat now' self) ws _ self (allocate m self ws locked) ids
      written kept
      (λ alive out e.
        allocate-IsExclusive m pos small self ws locked _ out
          (collate-place heartbeat now' (enter name now stored).1 (enter name now stored).2 here
            alive)
          kept room e)
      h

-- With at least one identifier to share out, `allocate` returns for every consumer, every list of
-- consumers that is not empty and every set of locked identifiers.
pub allocate-some :
    (m : ℕ) (self : ConsumerInfo) (ws : List ConsumerInfo) (locked : List ℕ)
    → 0 < m
    → 0 < length ws
    → (ids : List ℕ) × (allocate m self ws locked ≡ some ids)
unfolding allocate
allocate-some m self [] locked pos h = elim h [ ]
allocate-some m self (w ∷ ws) locked pos h =
    let expected = expected_of m self (w ∷ ws) in
    elim (Bool-cases (ltb expected (length self.ids))) [
      | inl less ↦
          (release locked (length self.ids) (length self.ids - expected) self.ids, rw less refl)
      | inr kept ↦ elim (Bool-cases (ltb (length self.ids) expected)) [
        | inl more ↦
            let (bs, e, v, l, g) = new_lem m pos in
            (
              acquire m (set_all bs (w ∷ ws)) 0 (expected - length self.ids) self.ids,
              rw (kept, more, e) refl,
            )
        | inr same ↦ (self.ids, rw (kept, same) refl)
      ]
    ]

length-get_elem? :
    (ws : List ConsumerInfo) (p : ℕ) {self : ConsumerInfo}
    → get_elem? ws p ≡ some self
    → 0 < length ws
length-get_elem? [] p h = cc
length-get_elem? (w ∷ ws) p h = omega arith

recent_time-enter_at :
    (name : String) (now : ℕ) (ws : List ConsumerInfo) (o : Option ℕ)
    → (enter_at name now ws o).0.recent_time ≡ now
unfolding enter_at
recent_time-enter_at name now ws none = refl
recent_time-enter_at name now ws (some i) = refl

recent_time-enter :
    (name : String) (now : ℕ) (ws : List ConsumerInfo) → (enter name now ws).0.recent_time ≡ now
unfolding enter
recent_time-enter name now ws = recent_time-enter_at name now ws (find_by_name ws name)

-- `allocateIDs` returns, with at least one identifier to share out, whatever the table that it reads,
-- if the consumer is not too late: the clock in `collate` is less than 20 heartbeat intervals after
-- that at the start.
pub allocate_ids-some :
    (m heartbeat : ℕ) (name : String) (now now' : ℕ) (locked : List ℕ) (stored : List ConsumerInfo)
    → 0 < m
    → now' < now + 20 * heartbeat
    → (ids : List ℕ) × (written : List ConsumerInfo) × (allocate_ids m heartbeat name now now'
          locked stored
        ≡ some (ids, written))
unfolding allocate_ids finish is_alive
allocate_ids-some m heartbeat name now now' locked stored pos soon =
    let self = entered_self name now stored in
    let ws = collated name heartbeat now now' stored in
    let alive : is_alive heartbeat now' self ≡ true =
      rw (recent_time-enter name now stored) (ground (arith, soon)) in
    let place =
      collate-place heartbeat now' (enter name now stored).1 (enter name now stored).2
        (enter-Entered name now stored).0 alive in
    let (ids, e) = allocate-some m self ws locked pos (length-get_elem? ws _ place) in
    rw e (ids, _, refl)
