-- ===== src/Job/Retrieve.antt =====
-- `RetrieveJobs` of pkg/consumer/job/manager.go on the rows of the jobs that were written.
use harns.Prelude.{
  ℕ, ◌+◌, ◌-◌, ◌*◌, ◌/◌, ◌%◌, ◌^◌, ◌<◌, ◌≡◌, refl, arith, List, [], ◌∷◌, ◌++◌, map, Bool, true,
  false, ◌&&◌, ◌==◌, leb, ltb, take, if◌then◌else◌,
}
use harns.Prelude.Int.{pos}
use harns.Prelude.Outcome.{ok}
use harns.Job.{Job, Group, rollup, delete, group_to_string, nanos_per_second, unix}
use harns.Job.Text.{job_string, group_from_string}
use harns.Job.RoundTrip.{job_of-job_string}
use harns.Job.Manager.{Row, Query, week_ns, job_of_row}

-- The row of a job, with a fraction of a second that the storage may add.
abbrev pub row_of : Job → ℕ → Row
row_of j nanos = record {
  job_data = job_string j;
  proc_time = j.proc_time_sec * nanos_per_second + nanos;
  group_name = group_to_string j.group;
  worker = pos j.consumer_id;
}

-- The jobs whose text can be read back.
pub record IsPrintable (j : Job) : Type 0 where
  pub block_start : ℕ
  pub starts : j.time_block.index ≡ pos block_start
  pub ten_digits : block_start < 10 ^ 10
  pub uint16 : j.consumer_id < 65536

group_from-to_string : (g : Group) → group_from_string (group_to_string g) ≡ g
unfolding group_from_string
group_from-to_string rollup = refl
group_from-to_string delete = refl

-- A row of a job gives the whole job back.
pub job_of_row-row_of :
    (j : Job) (nanos : ℕ)
    → IsPrintable j
    → nanos < nanos_per_second
    → job_of_row (row_of j nanos) ≡ ok j
unfolding job_of_row unix
job_of_row-row_of j nanos v h =
    let time : (j.proc_time_sec * nanos_per_second + nanos) / nanos_per_second ≡ j.proc_time_sec =
      omega arith in
    let id : j.consumer_id % 65536 ≡ j.consumer_id = omega (arith, v.uint16) in
    rw (job_of-job_string j v.block_start v.starts v.ten_digits, group_from-to_string, time, id)
      refl

pub data AllPrintable : List Job → Type 0 where
  nil : AllPrintable []
  cons : {j : Job} {js : List Job} → IsPrintable j → AllPrintable js → AllPrintable (j ∷ js)

abbrev pub rows_of : List Job → List Row
rows_of js = map (λ j. row_of j 0) js

-- The job is a row that a query asks for.
abbrev pub same_group : Group → Group → Bool
same_group rollup rollup = true
same_group delete delete = true
same_group g h = false

abbrev pub is_asked : Query → Job → Bool
is_asked q j =
    same_group q.table j.group
    && (q.worker_id == j.consumer_id
        && (leb q.start (j.proc_time_sec * nanos_per_second)
            && ltb (j.proc_time_sec * nanos_per_second) q.end))

abbrev pub keep : (Job → Bool) → List Job → List Job
keep test [] = []
keep test (j ∷ js) = let rest = keep test js in if test j then j ∷ rest else rest

-- What the log storage that holds the jobs lists for a query: the rows that are asked for, in their
-- order, up to the limit.
abbrev pub IsListing : (Query → List Row) → List Job → Type 0
IsListing list stored = (q : Query) → list q ≡ rows_of (take q.limit (keep (is_asked q) stored))

-- The job is in the table of the group, is of the worker, and is due before now but not more than a week.
abbrev pub is_due : Group → ℕ → ℕ → Job → Bool
is_due group id now j =
    same_group group j.group
    && (id == j.consumer_id
        && (leb (now - week_ns) (j.proc_time_sec * nanos_per_second)
            && ltb (j.proc_time_sec * nanos_per_second) now))

-- The due jobs of the workers, one worker after the other, of each the first 2000.
unfoldable pub due_jobs : List Job → (ℕ → ℕ) → Group → ℕ → List ℕ → List Job
due_jobs stored clock group round [] = []
due_jobs stored clock group round (id ∷ ids) =
    take 2000 (keep (is_due group id (clock round)) stored)
    ++ due_jobs stored clock group (round + 1) ids
