-- ===== src/Job/Once.antt =====
-- The statements that the manager of pkg/consumer/job/manager.go hands to the log storage over a
-- sequence of calls and ticks.
use harns.Prelude.{
  ℕ, ◌+◌, ◌*◌, ◌≤◌, ◌<◌, ◌≡◌, refl, sym, Bool, true, false, List, [], ◌∷◌, ◌++◌, ltb, ◌==◌, ◌&&◌,
  ◌||◌, if◌then◌else◌, drop, arith, Bool-cases, inl, inr,
}
use harns.Prelude.Outcome.{Outcome, ok, ◌>>=◌}
use harns.Prelude.Bytes.{eq_bytes}
use harns.Job.{
  Job, OperationType, TimeBlockUnit, Group, rollup, delete, delay_sec, delay_factor,
  operation_to_string, time_series_rollup, time_series_delete, event_type_delete,
  command_type_delete, thing_command_delete, thing_action_delete, thing_event_delete,
  thing_time_series_delete,
}
use harns.Job.Text.{job_string, block_string}
use harns.Job.Clock.{FixedZone, to_time_block, get_proc_time}
use harns.Job.Hash.{consumer_id}
use harns.Job.Make.{rollup_job, delete_job}
use harns.Job.Manager.{
  Manager, Statement, upsert, remove, new, cache_key, write_job, write_rollup, write_delete,
  maintain_cache,
}
use harns.Job.Cache.{
  cached, cached-written, cached_same, due, written, write_job_hit, write_job_miss,
  cached-write_job, cached-maintain_cache, delay-write_job,
}

-- A call of the manager, or a tick of its cache.
pub data Event : Type 0 where
  roll : TimeBlockUnit → ℕ → List ℕ → ℕ → ℕ → FixedZone → Event
  del : OperationType → List ℕ → ℕ → Event
  tick : ℕ → Event

unfoldable pub step : Manager → Event → Outcome Manager
step m (roll unit duration key now start loc) = write_rollup m unit duration key now start loc
step m (del operation key now) = write_delete m operation key now
step m (tick now) = ok (maintain_cache m now)

unfoldable pub run : Manager → List Event → Outcome Manager
run m [] = ok m
run m (e ∷ es) = do m' ← step m e; run m' es

-- No tick in the events is after `p`.
pub data IsBefore (p : ℕ) : List Event → Type 0 where
  nil : IsBefore p []
  roll_cons :
      {unit : TimeBlockUnit} {duration : ℕ} {key : List ℕ} {now start : ℕ} {loc : FixedZone}
      {es : List Event}
      → IsBefore p es
      → IsBefore p (roll unit duration key now start loc ∷ es)
  del_cons :
      {operation : OperationType} {key : List ℕ} {now : ℕ} {es : List Event}
      → IsBefore p es
      → IsBefore p (del operation key now ∷ es)
  tick_cons : {now : ℕ} {es : List Event} → now ≤ p → IsBefore p es → IsBefore p (tick now ∷ es)

-- The event is a rollup that is due at `p` and whose block and key have the text `k`.
unfoldable pub asks : ℕ → ℕ → List ℕ → Event → Bool
asks delay p k (roll unit duration key now start loc) =
    (get_proc_time now start duration loc + delay_factor unit * delay == p)
    && eq_bytes (block_string (to_time_block start unit loc) ++ key) k
asks delay p k (del operation key now) = false
asks delay p k (tick now) = false

unfoldable pub some_asks : ℕ → ℕ → List ℕ → List Event → Bool
some_asks delay p k [] = false
some_asks delay p k (e ∷ es) = asks delay p k e || some_asks delay p k es

abbrev pub group_is_rollup : Group → Bool
group_is_rollup rollup = true
group_is_rollup delete = false

-- The statement puts a rollup job with the text `k` in the table, due at `p`.
unfoldable pub is_upsert : ℕ → List ℕ → Statement → Bool
is_upsert p k (upsert rollup id data_ t) = (t == p) && eq_bytes (drop 3 data_) k
is_upsert p k (upsert delete id data_ t) = false
is_upsert p k (remove group id data_ t) = false

unfoldable pub upserts : ℕ → List ℕ → List Statement → ℕ
upserts p k [] = 0
upserts p k (s ∷ ss) = (if is_upsert p k s then 1 else 0) + upserts p k ss

upserts-snoc :
    (p : ℕ) (k : List ℕ) (ss : List Statement) (s : Statement)
    → upserts p k (ss ++ s ∷ []) ≡ upserts p k ss + (if is_upsert p k s then 1 else 0)
unfolding upserts
upserts-snoc p k [] s = omega arith
upserts-snoc p k (x ∷ xs) s = rw (upserts-snoc p k xs s) (omega arith)

drop_code : (op : OperationType) (s t : List ℕ) → drop 3 (operation_to_string op ++ s ++ t) ≡ s ++ t
drop_code time_series_rollup s t = refl
drop_code time_series_delete s t = refl
drop_code event_type_delete s t = refl
drop_code command_type_delete s t = refl
drop_code thing_command_delete s t = refl
drop_code thing_action_delete s t = refl
drop_code thing_event_delete s t = refl
drop_code thing_time_series_delete s t = refl

drop-job_string : (j : Job) → drop 3 (job_string j) ≡ cache_key j
unfolding job_string cache_key
drop-job_string j = drop_code j.operation (block_string j.time_block) j.key

is_upsert_job :
    (j : Job) (g : Group) (p t : ℕ) (k : List ℕ)
    → is_upsert p k (upsert g j.consumer_id (job_string j) t)
      ≡ (group_is_rollup g && ((t == p) && eq_bytes (cache_key j) k))
unfolding is_upsert
is_upsert_job j rollup p t k = rw drop-job_string refl
is_upsert_job j delete p t k = refl

-- The log holds a rollup once where it is cached, and not at all where it is not.
abbrev Counts : Manager → ℕ → List ℕ → Type 0
Counts m p k = upserts p k m.log ≡ (if cached m p k then 1 else 0)

-- A pair that is not cached for the job is not cached at all.
miss_same :
    (m : Manager) (j : Job) (p : ℕ) (k : List ℕ)
    → cached m (due m j) (cache_key j) ≡ false
    → (due m j == p && eq_bytes (cache_key j) k) ≡ true
    → cached m p k ≡ false
miss_same m j p k miss same = let (e, e') = cached_same m j p k same in rw (sym e, sym e') miss

upserts-written :
    (m : Manager) (j : Job) (p : ℕ) (k : List ℕ)
    → upserts p k (written m j).log
      ≡ upserts p k m.log
        + (if group_is_rollup j.group && ((due m j == p) && eq_bytes (cache_key j) k) then 1 else 0)
unfolding job_string cache_key
upserts-written m j p k = rw (upserts-snoc, is_upsert_job) refl

write_job-Counts :
    (m : Manager) (j : Job) (p : ℕ) (k : List ℕ)
    → j.group ≡ rollup
    → Counts m p k
    → Counts (write_job m j true) p k
unfolding delay_sec cache_key
write_job-Counts m j p k g h = elim (Bool-cases (cached m (due m j) (cache_key j))) [
  | inl hit ↦ rw (write_job_hit m j hit) h
  | inr miss ↦
      rw (write_job_miss m j miss, upserts-written, cached-written, g, h)
        (elim (Bool-cases (due m j == p && eq_bytes (cache_key j) k)) [
          | inl same ↦ rw (same, miss_same m j p k miss same) refl
          | inr other ↦ rw other (omega arith)
        ])
]

write_delete-Counts :
    (m : Manager) (j : Job) (p : ℕ) (k : List ℕ)
    → j.group ≡ delete
    → upserts p k (write_job m j false).log ≡ upserts p k m.log
unfolding write_job
write_delete-Counts m j p k g = rw (upserts-snoc, is_upsert_job, g) (omega arith)

-- What holds of the manager after an event: it asks for a pair or forgets nothing of it.
abbrev After : Manager → ℕ → List ℕ → Event → Manager → Type 0
After m p k e m' =
    (m'.max_instances ≡ m.max_instances)
    × (m'.delay ≡ m.delay)
    × Counts m' p k
    × (cached m' p k ≡ (asks m.delay p k e || cached m p k))

max_instances-write_job :
    (m : Manager) (j : Job) (b : Bool) → (write_job m j b).max_instances ≡ m.max_instances
unfolding write_job
max_instances-write_job m j false = refl
max_instances-write_job m j true = ground arith

write_rollup_ok :
    (m : Manager) (unit : TimeBlockUnit) (duration : ℕ) (key : List ℕ) (now start : ℕ)
    (loc : FixedZone) (p : ℕ) (k : List ℕ)
    → 0 < m.max_instances
    → Counts m p k
    → (m' : Manager) × (write_rollup m unit duration key now start loc ≡ ok m')
      × After m p k (roll unit duration key now start loc) m'
unfolding write_rollup rollup_job consumer_id delay_sec cache_key asks to_time_block
write_rollup_ok m unit duration key now start loc p k h c =
    let positive : m.max_instances == 0 ≡ false = ground arith in
    rw positive (
      _,
      refl,
      (
        max_instances-write_job m _ true,
        delay-write_job m _ true,
        write_job-Counts m _ p k refl c,
        cached-write_job m _ p k,
      ),
    )

write_delete_ok :
    (m : Manager) (operation : OperationType) (key : List ℕ) (now p : ℕ) (k : List ℕ)
    → 0 < m.max_instances
    → Counts m p k
    → (m' : Manager) × (write_delete m operation key now ≡ ok m')
      × After m p k (del operation key now) m'
unfolding write_delete write_job delete_job consumer_id asks
write_delete_ok m operation key now p k h c =
    let positive : m.max_instances == 0 ≡ false = ground arith in
    rw positive (_, refl, (refl, refl, rw (upserts-snoc, is_upsert_job) (ground arith), refl))

maintain_cache-After :
    (m : Manager) (now p : ℕ) (k : List ℕ)
    → now ≤ p
    → Counts m p k
    → After m p k (tick now) (maintain_cache m now)
unfolding asks maintain_cache
maintain_cache-After m now p k le c =
    let kept : ltb p now ≡ false = ground arith in
    let same : cached (maintain_cache m now) p k ≡ cached m p k =
      rw (cached-maintain_cache, kept) refl in
    (refl, refl, rw same c, same)

step_ok :
    (m : Manager) (e : Event) (es : List Event) (p : ℕ) (k : List ℕ)
    → 0 < m.max_instances
    → IsBefore p (e ∷ es)
    → Counts m p k
    → (m' : Manager) × (step m e ≡ ok m') × After m p k e m' × IsBefore p es
unfolding step
step_ok m (roll unit duration key now start loc) es p k h (roll_cons b) c =
    let (m', e, a) = write_rollup_ok m unit duration key now start loc p k h c in (m', e, a, b)
step_ok m (del operation key now) es p k h (del_cons b) c =
    let (m', e, a) = write_delete_ok m operation key now p k h c in (m', e, a, b)
step_ok m (tick now) es p k h (tick_cons le b) c =
    (maintain_cache m now, refl, maintain_cache-After m now p k le c, b)

if_or :
    (a b c : Bool) → ◌≡◌ {A = ℕ} (if (a || b) || c then 1 else 0) (if b || (a || c) then 1 else 0)
if_or true true c = refl
if_or true false c = refl
if_or false true c = refl
if_or false false c = refl

upserts-run_from :
    (m : Manager) (es : List Event) (p : ℕ) (k : List ℕ)
    → 0 < m.max_instances
    → IsBefore p es
    → Counts m p k
    → (m' : Manager) × (run m es ≡ ok m')
      × (upserts p k m'.log ≡ (if cached m p k || some_asks m.delay p k es then 1 else 0))
unfolding run some_asks
upserts-run_from m [] p k h b c = (m, refl, ground arith)
upserts-run_from m (e ∷ es) p k h b c =
    let (m₁, e₁, (i, d, c₁, a), b₁) = step_ok m e es p k h b c in
    let (m', r, u) = upserts-run_from m₁ es p k (rw i h) b₁ c₁ in
    (
      m',
      rw e₁ r,
      rw (u, a, d) (if_or (asks m.delay p k e) (cached m p k) (some_asks m.delay p k es)),
    )

-- From an empty cache and with at least one instance, any sequence of calls and ticks succeeds.
-- While no tick is after the time p, the rollup that is due at p for the block and the key with
-- the text k is handed over exactly once when some call asks for it, and never when none does.
pub upserts-run :
    (max_instances delay : ℕ) (es : List Event) (p : ℕ) (k : List ℕ)
    → 0 < max_instances
    → IsBefore p es
    → (m : Manager) × (run (new max_instances delay) es ≡ ok m)
      × (upserts p k m.log ≡ (if some_asks delay p k es then 1 else 0))
unfolding upserts
upserts-run max_instances delay es p k h b =
    upserts-run_from (new max_instances delay) es p k h b refl
