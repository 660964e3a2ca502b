-- ===== src/Registry/Marks.antt =====
-- pkg/consumer/instance/registry.go: the bit set of held identifiers that `allocate` searches.
use harns.Prelude.{
  ℕ, zero, suc, ◌+◌, ◌≤◌, ◌<◌, ◌≡◌, refl, ◌∙◌, arith, true, false, List, [], ◌∷◌, ltb,
  if◌then◌else◌,
}
use harns.BitSet.{BitSet, get}
use harns.BitSet.Access.{new_lem}
use harns.Registry.{ConsumerInfo, set_all}
use harns.Registry.Holders.{count_id, holders, set_all-Marked, Marked, sum_range}
use harns.Registry.Growth.{Taken, AllClear, free}

pub count_id-range :
    (bs : BitSet) (m i id : ℕ) (ks : List ℕ) → m ≤ id → Taken bs m i ks → count_id id ks ≡ 0
unfolding count_id
count_id-range bs m i id [] h t = refl
count_id-range bs m i id (k ∷ ks) h t = ground (arith, count_id-range bs m (k + 1) id ks h t.3)

pub count_id-AllClear :
    (bs : BitSet) (m id : ℕ) (ks : List ℕ)
    → AllClear bs m ks
    → get bs id ≡ true
    → count_id id ks ≡ 0
unfolding count_id
count_id-AllClear bs m id [] c h = refl
count_id-AllClear bs m id (k ∷ ks) c h = ground (arith, count_id-AllClear bs m id ks c.2 h)

-- The set of marked identifiers that `allocate` searches.
module _ (m : ℕ) (pos : 0 < m) (ws : List ConsumerInfo) where
  abbrev pub marked : BitSet
  marked = set_all (new_lem m pos).0 ws

  pub marked-Marked : Marked (new_lem m pos).0 marked (λ j. holders j ws)
  marked-Marked = set_all-Marked (new_lem m pos).0 ws (new_lem m pos).2

  pub len-marked : marked.len ≡ m
  len-marked = marked-Marked.len ∙ (new_lem m pos).3

  pub get-marked : (id : ℕ) → get marked id ≡ (if ltb 0 (holders id ws) then ltb id m else false)
  get-marked id = ground (arith, marked-Marked.at id, (new_lem m pos).3, (new_lem m pos).4 id)

  -- There are at least as many clear indexes as `held_total` leaves of `m`.
  pub free-marked : (n i : ℕ) → i + n ≤ m → n ≤ free marked i n + sum_range (λ k. holders k ws) i n
  unfolding free sum_range
  free-marked zero i h = omega arith
  free-marked (suc n) i h = ground (arith, get-marked i, free-marked n (i + 1) (omega arith))
