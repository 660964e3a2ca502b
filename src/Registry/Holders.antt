-- ===== src/Registry/Holders.antt =====
-- pkg/consumer/instance/registry.go: how often an identifier is held, and the bit set that
-- `allocate` marks the held ones in.
use harns.Prelude.{
  ℕ, zero, suc, ◌+◌, ◌≤◌, ◌≡◌, refl, arith, true, List, [], ◌∷◌, ◌++◌, ◌&&◌, ltb, ◌==◌,
  if◌then◌else◌, length,
}
use harns.BitSet.{BitSet, get, set_bit}
use harns.BitSet.Access.{IsValid, set_bit-IsValid, len-set_bit, get-set_bit}
use harns.Registry.{ConsumerInfo, set_ids, set_all}

unfoldable pub count_id : ℕ → List ℕ → ℕ
count_id id [] = 0
count_id id (x ∷ xs) = (if x == id then 1 else 0) + count_id id xs

-- How often the consumers hold an identifier.
unfoldable pub holders : ℕ → List ConsumerInfo → ℕ
holders id [] = 0
holders id (w ∷ ws) = count_id id w.ids + holders id ws

-- How many identifiers they hold.
unfoldable pub held_total : List ConsumerInfo → ℕ
held_total [] = 0
held_total (w ∷ ws) = length w.ids + held_total ws

pub count_id-append :
    (id : ℕ) (xs ys : List ℕ) → count_id id (xs ++ ys) ≡ count_id id xs + count_id id ys
unfolding count_id
count_id-append id [] ys = omega arith
count_id-append id (x ∷ xs) ys = omega (arith, count_id-append id xs ys)

-- Marking changes nothing but that the marked indexes in range are set.
pub record Marked (bs bs' : BitSet) (n : ℕ → ℕ) : Type 0 where
  pub valid : IsValid bs'
  pub len : bs'.len ≡ bs.len
  pub at : (j : ℕ) → get bs' j ≡ (if ltb 0 (n j) && ltb j bs.len then true else get bs j)

pub set_ids-Marked :
    (bs : BitSet) (ids : List ℕ) → IsValid bs → Marked bs (set_ids bs ids) (λ j. count_id j ids)
unfolding set_ids count_id
set_ids-Marked bs [] v = record { valid = v; len = refl; at = λ j. refl }
set_ids-Marked bs (id ∷ ids) v =
    let ih = set_ids-Marked (set_bit bs id) ids (set_bit-IsValid bs id v) in
    record {
      valid = ih.valid;
      len = omega (arith, ih.len, len-set_bit bs id v);
      at = λ j. ground (arith, ih.at j, get-set_bit bs id j v, len-set_bit bs id v);
    }

pub set_all-Marked :
    (bs : BitSet) (ws : List ConsumerInfo)
    → IsValid bs
    → Marked bs (set_all bs ws) (λ j. holders j ws)
unfolding set_all holders
set_all-Marked bs [] v = record { valid = v; len = refl; at = λ j. refl }
set_all-Marked bs (w ∷ ws) v =
    let own = set_ids-Marked bs w.ids v in
    let ih = set_all-Marked (set_ids bs w.ids) ws own.valid in
    record {
      valid = ih.valid;
      len = omega (arith, ih.len, own.len);
      at = λ j. ground (arith, ih.at j, own.at j, own.len);
    }

-- The sum of `f` over `n` indexes from `i` on.
unfoldable pub sum_range : (ℕ → ℕ) → ℕ → ℕ → ℕ
sum_range f i zero = 0
sum_range f i (suc n) = f i + sum_range f (i + 1) n

sum_range-eq :
    (id i n : ℕ) → sum_range (λ k. if id == k then 1 else 0) i n ≤ (if ltb id i then 0 else 1)
unfolding sum_range
sum_range-eq id i zero = omega arith
sum_range-eq id i (suc n) = ground (arith, sum_range-eq id (i + 1) n)

sum_range-add :
    (f g : ℕ → ℕ) (i n : ℕ) → sum_range (λ k. f k + g k) i n ≡ sum_range f i n + sum_range g i n
unfolding sum_range
sum_range-add f g i zero = refl
sum_range-add f g i (suc n) = omega (arith, sum_range-add f g (i + 1) n)

sum_range-zero : (i n : ℕ) → sum_range (λ k. 0) i n ≡ 0
unfolding sum_range
sum_range-zero i zero = refl
sum_range-zero i (suc n) = omega (arith, sum_range-zero (i + 1) n)

sum_range-count_id : (ids : List ℕ) (i n : ℕ) → sum_range (λ k. count_id k ids) i n ≤ length ids
unfolding count_id
sum_range-count_id [] i n = omega (arith, sum_range-zero i n)
sum_range-count_id (id ∷ ids) i n = ground (
  arith,
  sum_range-add (λ k. if id == k then 1 else 0) (λ k. count_id k ids) i n,
  sum_range-eq id i n,
  sum_range-count_id ids i n,
)

pub sum_range-holders :
    (ws : List ConsumerInfo) (i n : ℕ) → sum_range (λ k. holders k ws) i n ≤ held_total ws
unfolding holders held_total
sum_range-holders [] i n = omega (arith, sum_range-zero i n)
sum_range-holders (w ∷ ws) i n = omega (
  arith,
  sum_range-add (λ k. count_id k w.ids) (λ k. holders k ws) i n,
  sum_range-count_id w.ids i n,
  sum_range-holders ws i n,
)
