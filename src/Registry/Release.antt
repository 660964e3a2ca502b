-- ===== src/Registry/Release.antt =====
-- pkg/consumer/instance/registry.go: the loop of `allocate` that gives identifiers up.
use harns.Prelude.{
  ℕ, zero, suc, ◌+◌, ◌≤◌, ◌<◌, ◌≡◌, inl, inr, arith, List, [], ◌∷◌, length, Bool-cases,
}
use harns.Registry.{has, remove_at, release}
use harns.Registry.Holders.{count_id}

count_id-remove_at : (id i : ℕ) (ids : List ℕ) → count_id id (remove_at i ids) ≤ count_id id ids
unfolding count_id remove_at
count_id-remove_at id i [] = omega arith
count_id-remove_at id zero (x ∷ xs) = omega arith
count_id-remove_at id (suc i) (x ∷ xs) = omega (arith, count_id-remove_at id i xs)

-- Releasing adds nothing.
pub count_id-release :
    (locked : List ℕ) (n cnt id : ℕ) (ids : List ℕ)
    → count_id id (release locked n cnt ids) ≤ count_id id ids
unfolding release
count_id-release locked zero cnt id ids = omega arith
count_id-release locked (suc i) zero id ids = omega arith
count_id-release locked (suc i) (suc cnt) id ids = elim (Bool-cases (has locked i)) [
  | inl h ↦ rw h (count_id-release locked i cnt id ids)
  | inr h ↦ rw h (
      omega
        (arith, count_id-release locked i cnt id (remove_at i ids), count_id-remove_at id i ids))
]

length-remove_at :
    (i : ℕ) (ids : List ℕ) → i < length ids → length (remove_at i ids) + 1 ≡ length ids
unfolding remove_at
length-remove_at i [] h = elim h [ ]
length-remove_at zero (x ∷ xs) h = omega arith
length-remove_at (suc i) (x ∷ xs) h = omega (arith, length-remove_at i xs (omega arith))

-- Releasing `cnt` of the first `n` identifiers takes at most `cnt` away.
pub length-release :
    (locked : List ℕ) (n cnt : ℕ) (ids : List ℕ)
    → n ≤ length ids
    → (length (release locked n cnt ids) ≤ length ids)
      × (length ids ≤ length (release locked n cnt ids) + cnt)
unfolding release
length-release locked zero cnt ids h = omega arith
length-release locked (suc i) zero ids h = omega arith
length-release locked (suc i) (suc cnt) ids h = elim (Bool-cases (has locked i)) [
  | inl q ↦ rw q (omega (arith, length-release locked i cnt ids (omega arith)))
  | inr q ↦
      let less = length-remove_at i ids h in
      rw q
        (omega (arith, less, length-release locked i cnt (remove_at i ids) (omega (arith, less))))
]

-- With nothing locked it takes `cnt` away.
pub length-release_free :
    (n cnt : ℕ) (ids : List ℕ)
    → n ≤ length ids
    → cnt ≤ n
    → length (release [] n cnt ids) + cnt ≡ length ids
unfolding release
length-release_free zero cnt ids h h' = omega arith
length-release_free (suc i) zero ids h h' = omega arith
length-release_free (suc i) (suc cnt) ids h h' =
    let less = length-remove_at i ids h in
    omega
      (arith, less, length-release_free i cnt (remove_at i ids) (omega (arith, less)) (omega arith))
