-- ===== src/Job/Cache.antt =====
-- The cache of pkg/consumer/job/manager.go as a set of pairs of a due time and a key.
use harns.Prelude.{
  ℕ, ◌+◌, ◌≡◌, refl, sym, Bool, true, false, List, [], ◌∷◌, none, some, ltb, ◌==◌, not, ◌&&◌, ◌||◌,
  if◌then◌else◌, arith, Bool-cases, inl, inr,
}
use harns.Prelude.Bytes.{eq_bytes, eq_bytes_self, eq_bytes→eq}
use harns.Job.{Job, delay_sec}
use harns.Job.Text.{}
use harns.Job.Manager.{
  Manager, load, store, has_key, keys_or_new, drop_before, cache_key, write_job, maintain_cache,
  insert,
}

abbrev pub cached : Manager → ℕ → List ℕ → Bool
cached m p k = has_key (keys_or_new (load m.cache p)) k

pub load-store :
    (c : List (ℕ × List (List ℕ))) (p q : ℕ) (keys : List (List ℕ))
    → load (store c p keys) q ≡ (if p == q then some keys else load c q)
load-store [] p q keys = ground arith
load-store (e ∷ es) p q keys = let rest = load-store es p q keys in ground arith

pub load-drop_before :
    (c : List (ℕ × List (List ℕ))) (now q : ℕ)
    → load (drop_before now c) q ≡ (if ltb q now then none else load c q)
load-drop_before [] now q = ground arith
load-drop_before (e ∷ es) now q = let rest = load-drop_before es now q in ground arith

-- The time under which `writeJob` writes a job.
abbrev pub due : Manager → Job → ℕ
due m j = j.proc_time_sec + delay_sec j m.delay

pub write_job_hit :
    (m : Manager) (j : Job) → cached m (due m j) (cache_key j) ≡ true → write_job m j true ≡ m
unfolding write_job
write_job_hit m j h = rw h refl

-- What `writeJob` does for a job that is not cached.
abbrev pub written : Manager → Job → Manager
written m j =
    let p = due m j in
    insert (record m { cache = store m.cache p (cache_key j ∷ keys_or_new (load m.cache p)) })
      (record j { proc_time_sec = p })

pub write_job_miss :
    (m : Manager) (j : Job)
    → cached m (due m j) (cache_key j) ≡ false
    → write_job m j true ≡ written m j
unfolding write_job
write_job_miss m j h = rw h refl

pub cached-written :
    (m : Manager) (j : Job) (p : ℕ) (k : List ℕ)
    → cached (written m j) p k ≡ (due m j == p && eq_bytes (cache_key j) k || cached m p k)
cached-written m j p k = rw load-store (ground arith)

-- The pair that is asked for is the one of the job.
pub cached_same :
    (m : Manager) (j : Job) (p : ℕ) (k : List ℕ)
    → (due m j == p && eq_bytes (cache_key j) k) ≡ true
    → (due m j ≡ p) × (cache_key j ≡ k)
cached_same m j p k h = ground (arith, eq_bytes→eq (cache_key j) k)

-- Writing a job adds the pair of its time and its key to the cache, and no other.
pub cached-write_job :
    (m : Manager) (j : Job) (p : ℕ) (k : List ℕ)
    → cached (write_job m j true) p k ≡ (due m j == p && eq_bytes (cache_key j) k || cached m p k)
cached-write_job m j p k = elim (Bool-cases (cached m (due m j) (cache_key j))) [
  | inl hit ↦
      rw (write_job_hit m j hit) (elim (Bool-cases (due m j == p && eq_bytes (cache_key j) k)) [
        | inl same ↦ let (e, e') = cached_same m j p k same in rw (same, sym e, sym e') hit
        | inr other ↦ rw other refl
      ])
  | inr miss ↦ rw (write_job_miss m j miss) (cached-written m j p k)
]

-- A tick forgets the pairs whose time is before it, and no other.
pub cached-maintain_cache :
    (m : Manager) (now p : ℕ) (k : List ℕ)
    → cached (maintain_cache m now) p k ≡ (not (ltb p now) && cached m p k)
unfolding maintain_cache
cached-maintain_cache m now p k = rw load-drop_before (ground arith)

pub delay-write_job : (m : Manager) (j : Job) (b : Bool) → (write_job m j b).delay ≡ m.delay
unfolding write_job
delay-write_job m j false = refl
delay-write_job m j true = ground arith

cached-write_job_self :
    (m : Manager) (j : Job) → cached (write_job m j true) (due m j) (cache_key j) ≡ true
cached-write_job_self m j = rw (cached-write_job, eq_bytes_self) (ground arith)

-- Writing a job through the cache twice in a row leaves the cache and the statements as writing it
-- once does.
pub write_job_twice :
    (m : Manager) (j : Job) → write_job (write_job m j true) j true ≡ write_job m j true
write_job_twice m j =
    write_job_hit (write_job m j true) j (rw (delay-write_job m j true) (cached-write_job_self m j))
