-- ===== src/Job/Manager.antt =====
-- pkg/consumer/job/manager.go: the cache of the jobs that were written, the statements that are
-- handed to the log storage, and the jobs that are read back from it.
--
-- The calls are modelled one after the other: a `sync.Map` is an association list, and the log
-- storage is the list of the statements that it was given. A second is a natural number.
use harns.Prelude.{
  ℕ, ◌+◌, ◌-◌, ◌*◌, ◌%◌, Bool, true, false, List, [], ◌∷◌, ◌++◌, Option, none, some, ltb, ◌==◌,
  ◌||◌, if◌then◌else◌, length,
}
use harns.Prelude.Int.{ℤ, pos, negsuc}
use harns.Prelude.Outcome.{Outcome, ok, err, panic, ◌>>=◌}
use harns.Prelude.Bytes.{eq_bytes}
use harns.Job.{
  Group, OperationType, TimeBlockUnit, Job, delay_sec, rollup, unix, zero_block, time_series_rollup,
}
use harns.Job.Text.{block_string, job_string, job_of, group_from_string}
use harns.Job.Clock.{FixedZone}
use harns.Job.Make.{rollup_job, delete_job}

-- What is handed to the log storage: the table, the keys and the time of the row.
pub data Statement : Type 0 where
  upsert : Group → ℕ → List ℕ → ℕ → Statement
  remove : Group → ℕ → List ℕ → ℕ → Statement

pub record Manager : Type 0 where
  pub max_instances : ℕ  -- uint16
  pub delay : ℕ  -- `delaySec`
  pub cache : List (ℕ × List (List ℕ))
  pub log : List Statement

-- `New`
abbrev pub new : ℕ → ℕ → Manager
new max_instances delay = record {
  max_instances = max_instances;
  delay = delay;
  cache = [];
  log = [];
}

-- `m.cache.Load(p)`
abbrev pub load : List (ℕ × List (List ℕ)) → ℕ → Option (List (List ℕ))
load [] p = none
load (e ∷ es) p = let rest = load es p in if e.0 == p then some e.1 else rest

-- `m.cache.Store(p, keys)`
abbrev pub store : List (ℕ × List (List ℕ)) → ℕ → List (List ℕ) → List (ℕ × List (List ℕ))
store [] p keys = (p, keys) ∷ []
store (e ∷ es) p keys = let rest = store es p keys in if e.0 == p then (p, keys) ∷ es else e ∷ rest

-- `cacheKeys.Load(k)`
abbrev pub has_key : List (List ℕ) → List ℕ → Bool
has_key [] k = false
has_key (x ∷ xs) k = eq_bytes x k || has_key xs k

abbrev pub keys_or_new : Option (List (List ℕ)) → List (List ℕ)
keys_or_new none = []
keys_or_new (some keys) = keys

-- The row that `writeJob` inserts.
abbrev pub insert : Manager → Job → Manager
insert m j = record m {
  log = m.log ++ upsert j.group j.consumer_id (job_string j) j.proc_time_sec ∷ [];
}

-- The key of a job in the cache.
unfoldable pub cache_key : Job → List ℕ
cache_key j = block_string j.time_block ++ j.key

-- `writeJob`
unfoldable pub write_job : Manager → Job → Bool → Manager
write_job m j false = insert m j
write_job m j true =
    let p = j.proc_time_sec + delay_sec j m.delay in
    let k = cache_key j in
    let keys = keys_or_new (load m.cache p) in
    if has_key keys k
    then m
    else insert (record m { cache = store m.cache p (k ∷ keys) }) (record j { proc_time_sec = p })

-- `DeleteJob`
unfoldable pub forget_job : Manager → Job → Manager
forget_job m j = record m {
  log = m.log ++ remove j.group j.consumer_id (job_string j) j.proc_time_sec ∷ [];
}

-- `Rollup1MinuteJob`, `Rollup1HourJob` and `Rollup1DayJob`
unfoldable pub write_rollup :
    Manager → TimeBlockUnit → ℕ → List ℕ → ℕ → ℕ → FixedZone → Outcome Manager
write_rollup m unit duration key now start loc = do
  j ← rollup_job unit duration key now start loc m.max_instances
  ok (write_job m j true)

-- `DeleteThingJob` and the methods that differ from it in the operation.
unfoldable pub write_delete : Manager → OperationType → List ℕ → ℕ → Outcome Manager
write_delete m operation key now = do
  j ← delete_job operation key now m.max_instances
  ok (write_job m j false)

-- `m.cache.Range` with the function that `maintainCache` gives it.
abbrev pub drop_before : ℕ → List (ℕ × List (List ℕ)) → List (ℕ × List (List ℕ))
drop_before now [] = []
drop_before now (e ∷ es) = let rest = drop_before now es in if ltb e.0 now then rest else e ∷ rest

-- One tick of `maintainCache`.
unfoldable pub maintain_cache : Manager → ℕ → Manager
maintain_cache m now = record m { cache = drop_before now m.cache }

-- A row that the log storage lists; `worker` is what `strconv.Atoi` returns for its text.
pub record Row : Type 0 where
  pub job_data : List ℕ
  pub proc_time : ℕ
  pub group_name : List ℕ
  pub worker : ℤ

-- `uint16(n)`
abbrev pub to_uint16 : ℤ → ℕ
to_uint16 (pos n) = n % 65536
to_uint16 (negsuc n) = 65535 - n % 65536

-- What is left of `var j Job` when its text cannot be read.
abbrev pub zero_job : Job
zero_job = record {
  group = rollup;
  proc_time_sec = 0;
  consumer_id = 0;
  operation = time_series_rollup;
  time_block = zero_block;
  key = [];
}

abbrev pub or_zero : Outcome Job → Outcome Job
or_zero (ok j) = ok j
or_zero err = ok zero_job
or_zero panic = panic

-- The body of the inner loop of `RetrieveJobs`.
unfoldable pub job_of_row : Row → Outcome Job
job_of_row r = do
  j ← or_zero (job_of r.job_data)
  ok (record j {
    proc_time_sec = unix r.proc_time;
    group = group_from_string r.group_name;
    consumer_id = to_uint16 r.worker;
  })

unfoldable pub jobs_of_rows : List Row → Outcome (List Job)
jobs_of_rows [] = ok []
jobs_of_rows (r ∷ rs) = do j ← job_of_row r; js ← jobs_of_rows rs; ok (j ∷ js)

-- The query that `RetrieveJobs` makes: the table of a group, the worker, the time of the rows from
-- `start` on and before `end`, in nanoseconds, and how many rows at most.
pub record Query : Type 0 where
  pub table : Group
  pub worker_id : ℕ
  pub start : ℕ
  pub end : ℕ
  pub limit : ℕ

-- `7*24*time.Hour`
abbrev pub week_ns : ℕ
week_ns = 7 * 24 * 3600 * 1000000000

-- The clock is a week after 1970 at least.
abbrev pub query_of : Group → ℕ → ℕ → Query
query_of group id now = record {
  table = group;
  worker_id = id;
  start = now - week_ns;
  end = now;
  limit = 2000;
}

-- `RetrieveJobs`: the jobs that are sent on the channel, and their number. `list` is what the log
-- storage lists for a query, and `clock` the time at which a round of the loop reads the clock.
unfoldable pub retrieve_jobs :
    (Query → List Row) → (ℕ → ℕ) → Group → ℕ → List ℕ → Outcome (List Job × ℕ)
retrieve_jobs list clock group round [] = ok ([], 0)
retrieve_jobs list clock group round (id ∷ ids) = do
  let items = list (query_of group id (clock round))
  js ← jobs_of_rows items
  rest ← retrieve_jobs list clock group (round + 1) ids
  ok (js ++ rest.0, length items + rest.1)
