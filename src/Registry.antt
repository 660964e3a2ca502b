-- ===== src/Registry.antt =====
-- pkg/consumer/instance/registry.go and the parts of consumer.go that it works with: how the
-- running consumers share out the job identifiers 0 .. maxInstances - 1.
--
-- The table in the log store is the list that `read` returns and `write` stores; the JSON between
-- them is not modelled. Times are milliseconds. `self` points into the list, so its new identifiers
-- are written back at its place. `none` is the panic of a division by an empty list.
pub mod Shares
pub mod Holders
pub mod Growth
pub mod Release
pub mod Marks
pub mod Exclusive
pub mod AllocateIds
mod Tests
use text.Mathlib.Text.{◌==◌ as str_eq}
use Prim.Native.String.{String}
use harns.Prelude.{
  ℕ, zero, suc, ◌+◌, ◌-◌, ◌*◌, ◌/◌, ◌%◌, ◌^◌, Bool, true, false, Option, none, some, List, [], ◌∷◌,
  ◌++◌, ◌&&◌, ltb, leb, ◌==◌, not, if◌then◌else◌, length, get_or, set as set_elem, take,
}
use harns.BitSet.{BitSet, new, set_bit, next_clear}

pub record ConsumerInfo : Type 0 where
  pub ids : List ℕ
  pub name : String
  pub recent_time : ℕ

-- `getLockedIDs`: the indexes of the job counters that are positive.
pub locked_from : ℕ → List ℕ → List ℕ
locked_from i [] = []
locked_from i (cnt ∷ cnts) =
    let rest = locked_from (i + 1) cnts in if ltb 0 cnt then i ∷ rest else rest

unfoldable pub get_locked_ids : List ℕ → List ℕ
unfolding locked_from
get_locked_ids = locked_from 0

-- `lockedIDs.Has`
unfoldable pub has : List ℕ → ℕ → Bool
has [] i = false
has (x ∷ xs) i = if x == i then true else has xs i

-- `findByName`; `none` is -1.
unfoldable pub find_by_name : List ConsumerInfo → String → Option ℕ
find_by_name [] name = none
find_by_name (c ∷ cs) name =
    if str_eq c.name name
    then some 0
    else elim (find_by_name cs name) [ none ↦ none | some i ↦ some (suc i) ]

-- The test of `collate`, `now - w.RecentTime < 20 * r.heartbeatInterval` in integers.
unfoldable pub is_alive : ℕ → ℕ → ConsumerInfo → Bool
is_alive heartbeat_interval now w = ltb now (w.recent_time + 20 * heartbeat_interval)

unfoldable pub collate : ℕ → ℕ → List ConsumerInfo → List ConsumerInfo
unfolding is_alive
collate heartbeat_interval now [] = []
collate heartbeat_interval now (w ∷ ws) =
    let rest = collate heartbeat_interval now ws in
    if is_alive heartbeat_interval now w then w ∷ rest else rest

-- `append(ids[:i], ids[i+1:]...)`
unfoldable pub remove_at : ℕ → List ℕ → List ℕ
remove_at i [] = []
remove_at zero (x ∷ xs) = xs
remove_at (suc i) (x ∷ xs) = x ∷ remove_at i xs

-- The loop that gives identifiers up, from index `n - 1` down. The set of locked identifiers is
-- asked for the index.
unfoldable pub release : List ℕ → ℕ → ℕ → List ℕ → List ℕ
unfolding has remove_at
release locked zero cnt ids = ids
release locked (suc i) zero ids = ids
release locked (suc i) (suc cnt) ids =
    release locked i cnt (if has locked i then ids else remove_at i ids)

-- The loop that takes clear identifiers, with `cnt` rounds left, from index `i` on. A search that
-- finds none leaves the index 0, and the next round starts at 1.
unfoldable pub acquire : ℕ → BitSet → ℕ → ℕ → List ℕ → List ℕ
acquire max_instances bs i zero ids = ids
acquire max_instances bs i (suc cnt) ids =
    let (j, found) = next_clear bs i in
    let rest =
      acquire max_instances bs (j + 1) cnt (if found then ids ++ j % 2 ^ 16 ∷ [] else ids) in
    if ltb i max_instances then rest else ids

unfoldable pub set_ids : BitSet → List ℕ → BitSet
set_ids bs [] = bs
set_ids bs (id ∷ ids) = set_ids (set_bit bs id) ids

unfoldable pub set_all : BitSet → List ConsumerInfo → BitSet
unfolding set_ids
set_all bs [] = bs
set_all bs (w ∷ ws) = set_all (set_ids bs w.ids) ws

-- `expectedIDCnt`, at the place of the consumer among `instance_cnt` of them; -1 if it is not there.
unfoldable pub expected_id_cnt : ℕ → ℕ → Option ℕ → ℕ
expected_id_cnt max_instances instance_cnt none = (max_instances + instance_cnt) / instance_cnt
expected_id_cnt max_instances instance_cnt (some index) =
    (max_instances + instance_cnt - index - 1) / instance_cnt

unfoldable pub holds_any : List ConsumerInfo → Bool
holds_any [] = false
holds_any (c ∷ cs) = elim c.ids [ [] ↦ holds_any cs | x ∷ xs ↦ true ]

-- `allocate`: the new identifiers of `self`. A bit set of length 0 is nil: `Set` on it panics, and
-- the loop of no rounds does nothing.
unfoldable pub allocate : ℕ → ConsumerInfo → List ConsumerInfo → List ℕ → Option (List ℕ)
unfolding expected_id_cnt find_by_name
allocate max_instances self [] locked = none
allocate max_instances self (w ∷ ws) locked =
    let cs = w ∷ ws in
    let expected = expected_id_cnt max_instances (length cs) (find_by_name cs self.name) in
    let held = length self.ids in
    if ltb expected held
    then some (release locked held (held - expected) self.ids)
    else if ltb held expected
    then elim (new max_instances) [
      | none ↦ if holds_any cs then none else some self.ids
      | some bs ↦ some (acquire max_instances (set_all bs cs) 0 (expected - held) self.ids)
    ]
    else some self.ids

-- `self` with its place in the list: the entry of its name with a new time, or a new entry at the
-- end.
unfoldable pub enter_at :
    String → ℕ → List ConsumerInfo → Option ℕ → ConsumerInfo × ℕ × List ConsumerInfo
enter_at instance_name now ws none =
    let self : ConsumerInfo = record { ids = []; name = instance_name; recent_time = now } in
    (self, length ws, ws ++ self ∷ [])
enter_at instance_name now ws (some index) =
    let fresh : ConsumerInfo = record { ids = []; name = instance_name; recent_time = now } in
    let self : ConsumerInfo = record (get_or ws index fresh) { recent_time = now } in
    (self, index, set_elem ws index self)

unfoldable pub enter : String → ℕ → List ConsumerInfo → ConsumerInfo × ℕ × List ConsumerInfo
unfolding enter_at find_by_name
enter instance_name now ws = enter_at instance_name now ws (find_by_name ws instance_name)

-- The identifiers to return and the list to write. If `collate` dropped `self`, its new identifiers
-- are in no list.
unfoldable pub finish :
    Bool
    → List ConsumerInfo
    → ℕ
    → ConsumerInfo
    → Option (List ℕ)
    → Option (List ℕ × List ConsumerInfo)
finish kept ws place self none = none
finish kept ws place self (some ids) =
    some (ids, if kept then set_elem ws place (record self { ids = ids }) else ws)

-- `allocateIDs` between the `read` and the `write`: the identifiers it returns and the list that it
-- writes. `now` and `now'` are the clock at its start and in `collate`.
unfoldable pub allocate_ids :
    ℕ → ℕ → String → ℕ → ℕ → List ℕ → List ConsumerInfo → Option (List ℕ × List ConsumerInfo)
unfolding enter collate finish
allocate_ids max_instances heartbeat_interval instance_name now now' locked stored =
    let (self, index, entered) = enter instance_name now stored in
    let ws = collate heartbeat_interval now' entered in
    let place = length (collate heartbeat_interval now' (take index entered)) in
    finish (is_alive heartbeat_interval now' self) ws place self
      (allocate max_instances self ws locked)
