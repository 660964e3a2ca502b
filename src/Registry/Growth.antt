-- ===== src/Registry/Growth.antt =====
-- pkg/consumer/instance/registry.go: the loop of `allocate` that takes identifiers.
use mathlib.Core.List.{append_assoc, append-nil}
use native.Mathlib.Nat.{mod-eq_of_lt}
use harns.Prelude.{
  ℕ, zero, suc, ◌+◌, ◌-◌, ◌%◌, ◌^◌, ◌≤◌, ◌<◌, ◌≡◌, refl, sym, ap, ◌∙◌, inl, inr, arith, Bool, true,
  false, List, [], ◌∷◌, ◌++◌, ltb, lt→ltb, ==_iff, ◌==◌, if◌then◌else◌, length, lt-or-le,
  Bool-cases,
}
use harns.BitSet.{BitSet, get, next_clear}
use harns.BitSet.Access.{IsValid}
use harns.BitSet.Search.{FirstIndex, next_clear-FirstIndex}
use harns.Registry.{acquire}
use harns.Registry.Holders.{count_id}

-- New identifiers: clear in the bit set, in range, and rising from `i` on.
abbrev pub Taken : BitSet → ℕ → ℕ → List ℕ → Type 0
Taken bs m i [] = Unit
Taken bs m i (k ∷ ks) = (i ≤ k) × (k < m) × (get bs k ≡ false) × Taken bs m (k + 1) ks

-- New identifiers in any order.
abbrev pub AllClear : BitSet → ℕ → List ℕ → Type 0
AllClear bs m [] = Unit
AllClear bs m (k ∷ ks) = (k < m) × (get bs k ≡ false) × AllClear bs m ks

-- How many of `n` indexes from `i` on are clear.
unfoldable pub free : BitSet → ℕ → ℕ → ℕ
free bs i zero = 0
free bs i (suc n) = (if get bs i then 0 else 1) + free bs (i + 1) n

free-skip :
    (bs : BitSet) (d i j n : ℕ)
    → i + d ≡ j
    → ((k : ℕ) → i ≤ k → k < j → get bs k ≡ true)
    → free bs i (d + n) ≡ free bs j n
unfolding free
free-skip bs zero i j n e set =
    let e' : i ≡ j = omega arith in let e'' : 0 + n ≡ n = omega arith in rw (e', e'')
free-skip bs (suc d) i j n e set =
    let e' : suc d + n ≡ suc (d + n) = omega arith in
    rw e' (
      ground
        (arith, set i, free-skip bs d (i + 1) j n (omega arith) (λ k h h'. set k (omega arith) h')))

pub count_id-Taken :
    (bs : BitSet) (m i id : ℕ) (ks : List ℕ)
    → Taken bs m i ks
    → count_id id ks ≤ (if ltb id i then 0 else if get bs id then 0 else 1)
unfolding count_id
count_id-Taken bs m i id [] t = omega arith
count_id-Taken bs m i id (k ∷ ks) t = elim (Bool-cases (k == id)) [
  | inl e ↦
      let same : k ≡ id = (==_iff k id).0 e in
      let clear : get bs id ≡ false = ap (get bs) (sym same) ∙ t.2 in
      ground (arith, count_id-Taken bs m (k + 1) id ks t.3, same, clear)
  | inr ne ↦ ground (arith, count_id-Taken bs m (k + 1) id ks t.3)
]

free-none : (bs : BitSet) (i m : ℕ) → 0 < free bs i (m - i) → i < m
unfolding free
free-none bs i m h = elim (lt-or-le i m) [
  | inl q ↦ q
  | inr q ↦
      let e : m - i ≡ 0 = omega arith in
      let h' : 0 < free bs i 0 = rw e at h in absurd (omega arith)
]

-- The clear indexes from `i` on are those from the first of them, `j`, on.
free-first :
    (bs : BitSet) (i j m : ℕ)
    → i ≤ j
    → j < m
    → get bs j ≡ false
    → ((k : ℕ) → i ≤ k → k < j → get bs k ≡ true)
    → free bs i (m - i) ≡ suc (free bs (j + 1) (m - (j + 1)))
unfolding free
free-first bs i j m h h' clear set =
    let e : m - i ≡ j - i + suc (m - (j + 1)) = omega arith in
    rw (e, free-skip bs (j - i) i j (suc (m - (j + 1))) (omega arith) set, clear) (omega arith)

free-full :
    (bs : BitSet) (i m : ℕ)
    → i ≤ m
    → ((k : ℕ) → i ≤ k → k < m → get bs k ≡ true)
    → free bs i (m - i) ≡ 0
unfolding free
free-full bs i m h set =
    let e : m - i ≡ m - i + 0 = omega arith in rw e (free-skip bs (m - i) i m 0 (omega arith) set)

abbrev pub Acquired : ℕ → BitSet → ℕ → ℕ → List ℕ → List ℕ → Type 0
Acquired m bs i cnt ids out =
    (ks : List ℕ) × (out ≡ ids ++ ks) × Taken bs m i ks × (length ks ≡ cnt)

module _ (m : ℕ) (bs : BitSet) (len : bs.len ≡ m) (small : m < 2 ^ 16) where
  Taken-weaken : (i j : ℕ) (ks : List ℕ) → i ≤ j → Taken bs m j ks → Taken bs m i ks
  Taken-weaken i j [] h t = tt
  Taken-weaken i j (k ∷ ks) h t = (omega (arith, t.0), t.1, t.2, t.3)

  acquire-step :
      (cnt i : ℕ) (ids : List ℕ) (r : ℕ × Bool)
      → FirstIndex bs false i r
      → suc cnt ≤ free bs i (m - i)
      → ((i' : ℕ) (ids' : List ℕ)
          → cnt ≤ free bs i' (m - i')
          → Acquired m bs i' cnt ids' (acquire m bs i' cnt ids'))
      → Acquired m bs i
          (suc cnt)
          ids
          (acquire m bs (r.0 + 1) cnt (if r.1 then ids ++ r.0 % 2 ^ 16 ∷ [] else ids))
  acquire-step cnt i ids (j, true) f room ih =
      let first = free-first bs i j m f.0 (omega (arith, f.1)) f.2 f.3 in
      let (ks, out, taken, all) = ih (j + 1) (ids ++ j ∷ []) (omega (arith, first)) in
      let same : j % 2 ^ 16 ≡ j = mod-eq_of_lt (omega (arith, f.1)) in
      rw same (
        j ∷ ks,
        out ∙ append_assoc ids (j ∷ []) ks,
        (f.0, omega (arith, f.1), f.2, taken),
        omega (arith, all),
      )
  acquire-step cnt i ids (j, false) f room ih =
      let within = free-none bs i m (omega arith) in
      absurd (omega (arith, free-full bs i m (omega arith) (λ k h h'. f.1 k h (omega arith))))

-- With as many clear indexes as rounds, each round takes the next of them.
pub acquire-Taken :
    (m : ℕ) (bs : BitSet) (cnt i : ℕ) (ids : List ℕ)
    → IsValid bs
    → bs.len ≡ m
    → m < 2 ^ 16
    → cnt ≤ free bs i (m - i)
    → Acquired m bs i cnt ids (acquire m bs i cnt ids)
unfolding acquire
acquire-Taken m bs zero i ids v len small room = ([], sym (append-nil ids), tt, refl)
acquire-Taken m bs (suc cnt) i ids v len small room =
    let within = free-none bs i m (omega arith) in
    rw (lt→ltb i m within) (
      acquire-step m bs len small cnt i ids (next_clear bs i) (next_clear-FirstIndex bs i v) room
        (λ i' ids' room'. acquire-Taken m bs cnt i' ids' v len small room'))

acquire-AllClear-step :
    (m : ℕ) (bs : BitSet) (len : bs.len ≡ m) (small : m < 2 ^ 16) (cnt i : ℕ) (ids : List ℕ)
    (r : ℕ × Bool)
    → FirstIndex bs false i r
    → ((i' : ℕ) (ids' : List ℕ)
        → (ks : List ℕ) × (acquire m bs i' cnt ids' ≡ ids' ++ ks) × AllClear bs m ks)
    → (ks : List ℕ) × (acquire m bs (r.0 + 1) cnt (if r.1 then ids ++ r.0 % 2 ^ 16 ∷ [] else ids)
        ≡ ids ++ ks)
      × AllClear bs m ks
acquire-AllClear-step m bs len small cnt i ids (j, true) f ih =
    let (ks, out, clear) = ih (j + 1) (ids ++ j ∷ []) in
    let same : j % 2 ^ 16 ≡ j = mod-eq_of_lt (omega (arith, f.1)) in
    rw same (j ∷ ks, out ∙ append_assoc ids (j ∷ []) ks, (omega (arith, f.1), f.2, clear))
acquire-AllClear-step m bs len small cnt i ids (j, false) f ih = ih (j + 1) ids

-- Whatever the number of rounds, what the loop adds was clear and in range.
pub acquire-AllClear :
    (m : ℕ) (bs : BitSet) (cnt i : ℕ) (ids : List ℕ)
    → IsValid bs
    → bs.len ≡ m
    → m < 2 ^ 16
    → (ks : List ℕ) × (acquire m bs i cnt ids ≡ ids ++ ks) × AllClear bs m ks
unfolding acquire
acquire-AllClear m bs zero i ids v len small = ([], sym (append-nil ids), tt)
acquire-AllClear m bs (suc cnt) i ids v len small = elim (Bool-cases (ltb i m)) [
  | inl h ↦ rw h (
      acquire-AllClear-step m bs len small cnt i ids (next_clear bs i)
        (next_clear-FirstIndex bs i v) (λ i' ids'. acquire-AllClear m bs cnt i' ids' v len small))
  | inr h ↦ rw h ([], sym (append-nil ids), tt)
]
