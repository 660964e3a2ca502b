-- ===== src/Registry/Exclusive.antt =====
-- pkg/consumer/instance/registry.go: no identifier is held twice after `allocateIDs`.
use harns.Prelude.{
  ℕ, zero, suc, ◌+◌, ◌-◌, ◌^◌, ◌≤◌, ◌<◌, ◌≡◌, ◌⊎◌, inl, inr, arith, true, some, List, [], ◌∷◌, ltb,
  if◌then◌else◌, max, length, length-append, lt-or-le, get_elem?, set as set_elem,
}
use harns.BitSet.{get}
use harns.BitSet.Access.{new_lem}
use harns.Registry.{ConsumerInfo, release, acquire, allocate, expected_id_cnt, find_by_name}
use harns.Registry.Holders.{count_id, holders, held_total, count_id-append, sum_range-holders}
use harns.Registry.Release.{count_id-release, length-release, length-release_free}
use harns.Registry.Marks.{
  marked, marked-Marked, len-marked, get-marked, free-marked, count_id-range, count_id-AllClear,
}
use harns.Registry.Growth.{count_id-Taken, Acquired, acquire-Taken, acquire-AllClear}

-- No identifier is held twice, by two consumers or by one.
abbrev pub IsExclusive : List ConsumerInfo → Type 0
IsExclusive ws = (id : ℕ) → holders id ws ≤ 1

-- `expectedIDCnt` of a consumer in a list.
abbrev pub expected_of : ℕ → ConsumerInfo → List ConsumerInfo → ℕ
expected_of m self ws = expected_id_cnt m (length ws) (find_by_name ws self.name)

-- The three ways in which `allocate` returns.
module _ (m : ℕ) (pos : 0 < m) (self : ConsumerInfo) (locked : List ℕ) where
  abbrev Outcome : List ConsumerInfo → List ℕ → Type 0
  Outcome ws ids =
      ((expected_of m self ws < length self.ids)
        × (ids
            ≡ release locked (length self.ids) (length self.ids - expected_of m self ws) self.ids))
      ⊎ ((expected_of m self ws ≡ length self.ids) × (ids ≡ self.ids))
      ⊎ ((length self.ids < expected_of m self ws)
          × (ids
              ≡ acquire m (marked m pos ws) 0 (expected_of m self ws - length self.ids) self.ids))

  allocate-Outcome :
      (ws : List ConsumerInfo) (ids : List ℕ)
      → allocate m self ws locked ≡ some ids
      → Outcome ws ids
  unfolding allocate
  allocate-Outcome [] ids h = cc
  allocate-Outcome (w ∷ ws) ids h = ground (arith, (new_lem m pos).1)

-- One entry of the list replaced.
pub holders-set :
    (id p : ℕ) (ws : List ConsumerInfo) {self : ConsumerInfo} (c : ConsumerInfo)
    → get_elem? ws p ≡ some self
    → holders id (set_elem ws p c) + count_id id self.ids ≡ holders id ws + count_id id c.ids
unfolding holders
holders-set id p [] c h = cc
holders-set id zero (w ∷ ws) c h = ground arith
holders-set id (suc p) (w ∷ ws) c h = omega (arith, holders-set id p ws c h)

holders-ge :
    (id p : ℕ) (ws : List ConsumerInfo) {self : ConsumerInfo}
    → get_elem? ws p ≡ some self
    → count_id id self.ids ≤ holders id ws
unfolding holders
holders-ge id p [] h = cc
holders-ge id zero (w ∷ ws) h = ground arith
holders-ge id (suc p) (w ∷ ws) h = omega (arith, holders-ge id p ws h)

-- The identifiers that the consumers hold, with those that `self` is to get, are no more than there
-- are.
abbrev pub HasRoom : ℕ → ConsumerInfo → List ConsumerInfo → Type 0
HasRoom m self ws = held_total ws + (expected_of m self ws - length self.ids) ≤ m

module _ (m : ℕ) (pos : 0 < m) (small : m < 2 ^ 16) (self : ConsumerInfo) (ws : List ConsumerInfo)
    (locked : List ℕ) where
  acquired :
      HasRoom m self ws
      → Acquired m
          (marked m pos ws)
          0
          (expected_of m self ws - length self.ids)
          self.ids
          (acquire m (marked m pos ws) 0 (expected_of m self ws - length self.ids) self.ids)
  acquired room =
      acquire-Taken m (marked m pos ws) (expected_of m self ws - length self.ids) 0 self.ids
        (marked-Marked m pos ws).valid (len-marked m pos ws) small
        (let e : m - 0 ≡ m = omega arith in
          rw e (omega (arith, free-marked m pos ws m 0 (omega arith), sum_range-holders ws 0 m)))

  -- An identifier that `allocate` adds is held by none before, and is added once.
  count_id-allocate :
      (ids : List ℕ)
      → HasRoom m self ws
      → allocate m self ws locked ≡ some ids
      → (id : ℕ) → count_id id ids ≤ count_id id self.ids + (if ltb 0 (holders id ws) then 0 else 1)
  count_id-allocate ids room h id = elim (allocate-Outcome m pos self locked ws ids h) [
    | inl shrink ↦ rw shrink.1 (
        omega (
          arith,
          count_id-release locked (length self.ids) (length self.ids - expected_of m self ws) id
              self.ids,
        ))
    | inr (inl keep) ↦ rw keep.1 (omega arith)
    | inr (inr grow) ↦ rw grow.1 (added (acquired room))
  ]
    where
      added :
          {out : List ℕ} {cnt : ℕ}
          → Acquired m (marked m pos ws) 0 cnt self.ids out
          → count_id id out ≤ count_id id self.ids + (if ltb 0 (holders id ws) then 0 else 1)
      added (ks, e, taken, all) =
          rw (e, count_id-append)
            (ground (
              arith,
              count_id-Taken (marked m pos ws) m 0 id ks taken,
              count_id-range (marked m pos ws) m 0 id ks,
              taken,
              get-marked m pos ws id,
              lt-or-le id m,
            ))

  -- Where no identifier is held twice, `self` stands at place p of the list, and there is room for
  -- its growth, then after `allocate` no identifier is held twice either.
  pub allocate-IsExclusive :
      (p : ℕ) (ids : List ℕ)
      → get_elem? ws p ≡ some self
      → IsExclusive ws
      → HasRoom m self ws
      → allocate m self ws locked ≡ some ids
      → IsExclusive (set_elem ws p (record self { ids = ids }))
  allocate-IsExclusive p ids here excl room h id = ground (
    arith,
    holders-set id p ws (record self { ids = ids }) here,
    holders-ge id p ws here,
    excl id,
    count_id-allocate ids room h id,
  )

  -- The bounds on the number of identifiers after `allocate`.
  length-allocate_all :
      (ids : List ℕ)
      → HasRoom m self ws
      → allocate m self ws locked ≡ some ids
      → (expected_of m self ws ≤ length ids)
        × (length ids ≤ max (length self.ids) (expected_of m self ws))
        × (locked ≡ [] → length ids ≡ expected_of m self ws)
  length-allocate_all ids room h = elim (allocate-Outcome m pos self locked ws ids h) [
    | inl shrink ↦
        let bounds =
          length-release locked (length self.ids) (length self.ids - expected_of m self ws) self.ids
            (omega arith) in
        rw shrink.1 (
          omega (arith, shrink.0, bounds),
          omega (arith, shrink.0, bounds),
          λ e. rw e (
              omega (
                arith,
                shrink.0,
                length-release_free (length self.ids) (length self.ids - expected_of m self ws)
                    self.ids (omega arith) (omega arith),
              )),
        )
    | inr (inl keep) ↦ rw keep.1 (omega (arith, keep.0), omega arith, λ e. omega (arith, keep.0))
    | inr (inr grow) ↦
        let (ks, e, taken, all) = acquired room in
        let len = length-append self.ids ks in
        rw (grow.1, e, len)
          (omega (arith, all, grow.0), omega (arith, all, grow.0), λ q. omega (arith, all, grow.0))
  ]

  -- For a `maxInstances` from 1 to 2 ^ 16 - 1 and with room for its growth: where `allocate`
  -- returns, `self` has at least its share, and no more than it held before if that was more.
  pub length-allocate :
      (ids : List ℕ)
      → HasRoom m self ws
      → allocate m self ws locked ≡ some ids
      → (expected_of m self ws ≤ length ids)
        × (length ids ≤ max (length self.ids) (expected_of m self ws))
  length-allocate ids room h = let all = length-allocate_all ids room h in (all.0, all.1)

  -- For a `maxInstances` from 1 to 2 ^ 16 - 1, with room for its growth and nothing locked: where
  -- `allocate` returns, `self` has exactly its share.
  pub length-allocate_free :
      (ids : List ℕ)
      → HasRoom m self ws
      → allocate m self ws locked ≡ some ids
      → locked ≡ []
      → length ids ≡ expected_of m self ws
  length-allocate_free ids room h = (length-allocate_all ids room h).2

  -- For a `maxInstances` from 1 to 2 ^ 16 - 1, with room or without: where `allocate` returns, it
  -- gives `self` no identifier below `maxInstances` that a consumer of the list holds, beyond
  -- those that `self` has.
  pub allocate_others :
      (ids : List ℕ) (id : ℕ)
      → allocate m self ws locked ≡ some ids
      → 0 < holders id ws
      → id < m
      → count_id id ids ≤ count_id id self.ids
  allocate_others ids id h held within = elim (allocate-Outcome m pos self locked ws ids h) [
    | inl shrink ↦ rw shrink.1 (count_id-release locked _ _ id self.ids)
    | inr (inl keep) ↦ rw keep.1 (omega arith)
    | inr (inr grow) ↦
        let (ks, e, clear) =
          acquire-AllClear m (marked m pos ws) (expected_of m self ws - length self.ids) 0 self.ids
            (marked-Marked m pos ws).valid (len-marked m pos ws) small in
        let set : get (marked m pos ws) id ≡ true = ground (arith, get-marked m pos ws id) in
        rw (grow.1, e, count_id-append)
          (omega (arith, count_id-AllClear (marked m pos ws) m id ks clear set))
  ]
