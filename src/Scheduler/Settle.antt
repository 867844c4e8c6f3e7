-- ===== src/Scheduler/Settle.antt =====
-- internal/scheduler/scheduler.go: StartTask, RenewLease, updateJob, RebalanceWorker and GetJob.
pub mod Tally
use distributed_image_proces.Prelude.{
  ℕ, ◌+◌, String, Bool, true, false, not, ◌&&◌, Option, none, some, List, [], ◌∷◌, ◌++◌, map,
  lookup, insert, ◌>>=◌, string_discrete, ite, ltb, ◌==◌, if◌then◌else◌,
}
use distributed_image_proces.Scheduler.Job.{
  Job, JobStatus, Task, TaskStatus, RenewLeaseRequest, LeaseRenewal, in_flight, is_done, is_failed,
}
use distributed_image_proces.Scheduler.State.{Scheduler, persist}
use distributed_image_proces.Scheduler.Lease.{reset_lease, renew, renewal_of}

-- StartTask; `none` is "task not found". The worker id that the source takes is not read.
unfoldable pub start_task : String → ℕ → Scheduler → Option Scheduler
start_task task_id now s = do
  t ← lookup task_id s.tasks
  let u = record t { status = TaskStatus.running; started_at = some now }
  some (persist (record s { tasks = insert task_id u s.tasks }))

-- RenewLease; `none` is "task not found".
unfoldable pub renew_lease :
    String → RenewLeaseRequest → Scheduler → Option (LeaseRenewal × Scheduler)
renew_lease task_id req s = do
  t ← lookup task_id s.tasks
  let u = renew s.lease_chunk req t
  some (renewal_of req u, persist (record s { tasks = insert task_id u s.tasks }))

-- GetJob
unfoldable pub get_job : String → Scheduler → Option Job
get_job id s = lookup id s.jobs

-- The three counters of updateJob's loop.
pub record Counts : Type 0 where
  pub pending : ℕ
  pub done : ℕ
  pub failed : ℕ

unfoldable pub count_one : String → Task → Counts → Counts
count_one job_id t c =
    ite (string_discrete t.job_id job_id)
      (if is_done t.status
        then record c { done = c.done + 1 }
        else if is_failed t.status
        then record c { failed = c.failed + 1 }
        else record c { pending = c.pending + 1 })
      c

unfoldable pub count_tasks : String → List (String × Task) → Counts → Counts
unfolding count_one
count_tasks job_id [] c = c
count_tasks job_id ((_, t) ∷ m) c = count_tasks job_id m (count_one job_id t c)

abbrev pub no_counts : Counts
no_counts = record { pending = 0; done = 0; failed = 0 }

-- The job as updateJob leaves it.
unfoldable pub settled_job : ℕ → Counts → Job → Job
settled_job now c j =
    let counted = record j { done_tasks = c.done; failed_tasks = c.failed } in
    if ltb 0 c.pending
    then counted
    else if ltb 0 c.failed
    then record counted { finished_at = some now; status = JobStatus.failed; error = some c.failed }
    else record counted { finished_at = some now; status = JobStatus.completed }

-- The call of onJobDone, if it is set and the job has no pending task.
unfoldable pub notify : String → Counts → Option (List String) → Option (List String)
notify job_id c hook = elim hook [
  | none ↦ none
  | some calls ↦ if ltb 0 c.pending then some calls else some (calls ++ job_id ∷ [])
]

-- updateJob
unfoldable pub update_job : String → ℕ → Scheduler → Scheduler
unfolding count_tasks settled_job notify
update_job job_id now s = elim (lookup job_id s.jobs) [
  | none ↦ s
  | some j ↦
      let c = count_tasks job_id s.tasks no_counts in
      record s {
        jobs = insert job_id (settled_job now c j) s.jobs;
        on_job_done = notify job_id c s.on_job_done;
      }
]

-- A task put back in the queue, by a retry or a rebalance.
unfoldable pub requeued : Task → Task
requeued t =
    reset_lease (record t { retries = t.retries + 1; status = TaskStatus.pending; worker_id = "" })

-- The guards of RebalanceWorker's loop.
unfoldable pub held_by : String → Task → Bool
held_by worker t = ite (string_discrete t.worker_id worker) (in_flight t.status) false

-- The rest of its body, for the task under key `k`, with the counter.
unfoldable pub give_up : ℕ → String → Task → Scheduler × ℕ → Scheduler × ℕ
unfolding requeued update_job
give_up now k t (s, n) =
    if ltb t.retries t.max_retries
    then (
      record s { tasks = insert k (requeued t) s.tasks; pending_q = s.pending_q ++ t.id ∷ [] },
      n + 1,
    )
    else (
      update_job t.job_id now
          (record s { tasks = insert k (record t { status = TaskStatus.failed }) s.tasks }),
      n,
    )

unfoldable pub rebalance_one : String → ℕ → String → Scheduler × ℕ → Scheduler × ℕ
unfolding held_by give_up
rebalance_one worker now k (s, n) = elim (lookup k s.tasks) [
  | none ↦ (s, n)
  | some t ↦ if held_by worker t then give_up now k t (s, n) else (s, n)
]

-- The loop, over the keys of the map, which it does not change.
unfoldable pub rebalance_keys : String → ℕ → List String → Scheduler × ℕ → Scheduler × ℕ
unfolding rebalance_one
rebalance_keys worker now [] r = r
rebalance_keys worker now (k ∷ ks) r = rebalance_keys worker now ks (rebalance_one worker now k r)

abbrev pub keys : {V : Type 0} → List (String × V) → List String
keys m = map (λ e. e.0) m

-- RebalanceWorker
unfoldable pub rebalance_worker : String → ℕ → Scheduler → Scheduler
unfolding rebalance_keys
rebalance_worker worker now s =
    let (s', n) = rebalance_keys worker now (keys s.tasks) (s, 0) in
    if ltb 0 n then persist s' else s'
