-- ===== src/Registry/Shares.antt =====
-- pkg/consumer/instance/registry.go: the numbers of identifiers that the consumers are to have.
use harns.Prelude.{ℕ, zero, suc, ◌+◌, ◌-◌, ◌/◌, ◌≤◌, ◌<◌, ◌≡◌, refl, arith, some}
use native.Mathlib.Nat.{div-eq_of_lt, add-div_right}
use harns.Registry.{expected_id_cnt}

-- The shares of the first `n` of `c` consumers.
pub sum_shares : ℕ → ℕ → ℕ → ℕ
sum_shares m c zero = 0
sum_shares m c (suc n) = sum_shares m c n + expected_id_cnt m c (some n)

-- The same quotients from the last consumer on.
quotients : ℕ → ℕ → ℕ → ℕ
quotients m c zero = 0
quotients m c (suc n) = quotients m c n + (m + n) / c

quotients-suc : (m c n : ℕ) → quotients (m + 1) c n + m / c ≡ quotients m c n + (m + n) / c
unfolding quotients
quotients-suc m c zero = let e : m + 0 ≡ m = omega arith in rw e
quotients-suc m c (suc n) =
    let e : m + 1 + n ≡ m + suc n = omega arith in rw e (omega (arith, quotients-suc m c n))

quotients_small : (c n : ℕ) → n ≤ c → quotients 0 c n ≡ 0
unfolding quotients
quotients_small c zero h = refl
quotients_small c (suc n) h =
    let small : (0 + n) / c ≡ 0 = div-eq_of_lt (omega arith) in
    omega (arith, small, quotients_small c n (omega arith))

quotients_all : (m c : ℕ) → 0 < c → quotients m c c ≡ m
quotients_all zero c h = quotients_small c c (omega arith)
quotients_all (suc m) c h =
    let e : suc m ≡ m + 1 = omega arith in
    rw e (omega (arith, quotients-suc m c c, add-div_right m h, quotients_all m c h))

sum_shares-quotients :
    (m c n : ℕ) → n ≤ c → sum_shares m c n + quotients m c (c - n) ≡ quotients m c c
unfolding sum_shares quotients expected_id_cnt
sum_shares-quotients m c zero h = let e : c - 0 ≡ c = omega arith in rw e (omega arith)
sum_shares-quotients m c (suc n) h =
    let ih = sum_shares-quotients m c n (omega arith) in
    let e : c - n ≡ suc (c - suc n) = omega arith in
    let ih' : sum_shares m c n + quotients m c (suc (c - suc n)) ≡ quotients m c c = rw e at ih in
    let e' : m + c - n - 1 ≡ m + (c - suc n) = omega arith in rw e' (omega (arith, ih'))

-- The expected numbers of all of `c` consumers, by their places, make up `maxInstances`, where c
-- is not 0.
pub sum_shares_all : (m c : ℕ) → 0 < c → sum_shares m c c ≡ m
unfolding quotients
sum_shares_all m c h =
    let e : c - c ≡ 0 = omega arith in
    let all : sum_shares m c c + quotients m c 0 ≡ quotients m c c =
      rw e at (sum_shares-quotients m c c (omega arith)) in
    omega (arith, all, quotients_all m c h)

-- Of two consumers by their places among `c`, neither is to have two identifiers more than the
-- other.
pub expected_id_cnt_even :
    (m c i j : ℕ) → i < c → j < c → expected_id_cnt m c (some i) ≤ expected_id_cnt m c (some j) + 1
unfolding expected_id_cnt
expected_id_cnt_even m c i j h k = grind (arith, add-div_right (m + c - j - 1) {k = c})
