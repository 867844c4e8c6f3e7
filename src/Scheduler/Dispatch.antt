-- ===== src/Scheduler/Dispatch.antt =====
-- internal/scheduler/scheduler.go: Submit, PollTasks, assignLocked and assignmentFor.
-- `none` as a result is a nil dereference or a slice out of range. The clock and the
-- uuid package are arguments: the present time, and the ids that they give.
pub mod Submission
pub mod Queue
pub mod Waiting
pub mod Poll
use distributed_image_proces.Prelude.{
  ℕ, zero, suc, ◌+◌, ◌≡◌, String, Bool, true, false, not, Option, none, some, List, [], ◌∷◌, ◌++◌,
  lookup, insert, length, get_elem?, take, drop, remove_at, ◌>>=◌, string_discrete, ite, ltb, leb,
  ◌==◌, ltb_ℤ, ℤ, pos, negsuc, if◌then◌else◌,
}
use distributed_image_proces.Storage.Shard.{all_shards}
use distributed_image_proces.Scheduler.Job.{
  Job, JobStatus, Task, TaskStatus, TaskAssignment, SubmitJobRequest, is_pending,
}
use distributed_image_proces.Scheduler.State.{Scheduler, persist}
use distributed_image_proces.Scheduler.Lease.{grant}
use distributed_image_proces.Scheduler.Steal.{steal}

-- The task literal in Submit's loop.
unfoldable pub fresh_task : String → String → Job → ℕ → Task
fresh_task id shard job max_retries = record {
  id = id;
  job_id = job.id;
  shard = shard;
  worker_id = "";
  status = TaskStatus.pending;
  priority = job.priority;
  retries = 0;
  max_retries = max_retries;
  assigned_at = none;
  started_at = none;
  finished_at = none;
  error = "";
  range_start = 0;
  range_end = negsuc 0;
  frontier = 0;
  granted = 0;
  generation = 0;
  split = false;
}

-- Submit's loop over the shards; `ids` gives the uuids, from number `i` on.
unfoldable pub add_tasks : (ℕ → String) → ℕ → Job → List String → Scheduler → Scheduler
unfolding fresh_task
add_tasks ids i job [] s = s
add_tasks ids i job (shard ∷ shards) s = add_tasks ids (i + 1) job shards (record s {
  tasks = insert (ids i) (fresh_task (ids i) shard job s.max_retries) s.tasks;
  pending_q = s.pending_q ++ ids i ∷ [];
})

unfoldable pub requested_shards : SubmitJobRequest → List String
requested_shards req = if length req.shards == 0 then all_shards else req.shards

-- The job literal of Submit.
unfoldable pub fresh_job : String → ℕ → SubmitJobRequest → Job
unfolding requested_shards
fresh_job id now req = record {
  id = id;
  dataset = req.dataset;
  algorithm = req.algorithm;
  config = req.config;
  priority = req.priority;
  status = JobStatus.pending;
  shards = requested_shards req;
  total_tasks = length (requested_shards req);
  done_tasks = 0;
  failed_tasks = 0;
  created_at = now;
  started_at = none;
  finished_at = none;
  error = none;
}

-- The job that Submit stores. The source stores a pointer to it and writes the status and the
-- start after the loop, which reads neither.
unfoldable pub started_job : String → ℕ → SubmitJobRequest → Job
unfolding fresh_job
started_job id now req = record (fresh_job id now req) {
  status = JobStatus.running;
  started_at = some now;
}

-- Submit
unfoldable pub submit : (ℕ → String) → ℕ → SubmitJobRequest → Scheduler → Job × Scheduler
unfolding started_job add_tasks
submit ids now req s =
    let job = started_job (ids 0) now req in
    (job, persist (add_tasks ids 1 job job.shards (record s { jobs = insert job.id job s.jobs })))

-- assignmentFor, for the job that it finds.
unfoldable pub assignment_of : Task → Job → TaskAssignment
assignment_of t job = record {
  task_id = t.id;
  job_id = t.job_id;
  shard = t.shard;
  dataset = job.dataset;
  algorithm = job.algorithm;
  config = job.config;
  range_start = t.range_start;
  range_end = t.range_end;
  bound = t.granted;
  generation = t.generation;
  split = t.split;
}

unfoldable pub assignment_for : Task → Scheduler → Option TaskAssignment
unfolding assignment_of
assignment_for t s = do job ← lookup t.job_id s.jobs; some (assignment_of t job)

-- The task that assignLocked leaves.
unfoldable pub assigned_task : ℕ → String → ℕ → Task → Task
assigned_task chunk worker now t =
    grant chunk
      (record t { status = TaskStatus.assigned; worker_id = worker; assigned_at = some now })

-- assignLocked, for the task under key `tid`.
unfoldable pub assign : String → String → ℕ → Scheduler → Option (TaskAssignment × Scheduler)
unfolding assigned_task assignment_for
assign tid worker now s = do
  t ← lookup tid s.tasks
  let u = assigned_task s.lease_chunk worker now t
  let s' = record s { tasks = insert tid u s.tasks }
  a ← assignment_for u s'
  some (a, s')

-- The better of a pending task and `fallback`, which is kept with `fallbackPri`.
unfoldable pub prefer : ℕ → Task → Option (ℕ × ℤ) → Option (ℕ × ℤ)
prefer i t none = some (i, t.priority)
prefer i t (some (j, pri)) = if ltb_ℤ pri t.priority then some (i, t.priority) else some (j, pri)

-- The loop of PollTasks. `owner_of` is the ring's Lookup, "" for its error.
module _ (owner_of : String → String) (worker : String) (tasks : List (String × Task)) where
  -- The task that a queued id names, if it is pending.
  unfoldable pub waiting : String → Option Task
  waiting tid = elim (lookup tid tasks) [
    | none ↦ none
    | some t ↦ if is_pending t.status then some t else none
  ]

  unfoldable pub is_local : String → Bool
  unfolding waiting
  is_local tid = elim (waiting tid) [
    | none ↦ false
    | some t ↦ ite (string_discrete (owner_of t.shard) worker) true false
  ]

  unfoldable pub fall_back : ℕ → String → Option (ℕ × ℤ) → Option (ℕ × ℤ)
  unfolding waiting prefer
  fall_back i tid best = elim (waiting tid) [ none ↦ best | some t ↦ prefer i t best ]

  -- The index in the queue, the preferred one or the fallback.
  unfoldable pub choose : ℕ → Option (ℕ × ℤ) → List String → Option ℕ
  unfolding is_local fall_back
  choose i best [] = elim best [ none ↦ none | some (j, _) ↦ some j ]
  choose i best (tid ∷ q) =
      let rest = choose (i + 1) (fall_back i tid best) q in if is_local tid then some i else rest

-- What PollTasks returns: nothing, or an assignment.
abbrev pub Polled : Type 0
Polled = Option TaskAssignment × Scheduler

unfoldable pub assign_and_persist : String → String → ℕ → Scheduler → Option Polled
unfolding assign
assign_and_persist tid worker now s = do
  (a, s') ← assign tid worker now s
  some (some a, persist s')

-- The branch of PollTasks with no pending task; `new_id` is the stolen task's.
unfoldable pub poll_steal : String → String → ℕ → Scheduler → Option Polled
unfolding assign_and_persist
poll_steal new_id worker now s = elim (steal new_id s) [
  | none ↦ some (none, s)
  | some (t, s') ↦ assign_and_persist t.id worker now s'
]

unfoldable pub poll_queued : ℕ → String → ℕ → Scheduler → Option Polled
unfolding assign_and_persist
poll_queued idx worker now s = do
  tid ← get_elem? s.pending_q idx
  assign_and_persist tid worker now (record s { pending_q = remove_at s.pending_q idx })

-- PollTasks
unfoldable pub poll_tasks : (String → String) → String → String → ℕ → Scheduler → Option Polled
unfolding poll_steal poll_queued choose
poll_tasks owner_of new_id worker now s = elim (choose owner_of worker s.tasks 0 none s.pending_q) [
  | none ↦ poll_steal new_id worker now s
  | some idx ↦ poll_queued idx worker now s
]
