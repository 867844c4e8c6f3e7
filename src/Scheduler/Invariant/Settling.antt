-- ===== src/Scheduler/Invariant/Settling.antt =====
-- The invariant through Submit, DrainPending and RebalanceWorker.
use distributed_image_proces.Prelude.{
  ℕ, ◌+◌, refl, ◌≢◌, String, none, List, [], ◌∷◌, lookup, insert, lookup-insert, Option-cases,
  Bool-cases, inl, inr, ltb, take, drop, arith, ℤ, IfSome, negsuc, pos, if◌then◌else◌, length, ◌==◌,
}
use distributed_image_proces.Scheduler.Job.{Job, Task, TaskStatus, SubmitJobRequest, is_pending}
use distributed_image_proces.Scheduler.State.{Scheduler}
use distributed_image_proces.Scheduler.Dispatch.{add_tasks, started_job, submit}
use distributed_image_proces.Scheduler.Drain.{drain_one, drain_ids, drain, drain_pending}
use distributed_image_proces.Scheduler.Settle.{
  requeued, held_by, give_up, rebalance_one, rebalance_keys, keys, rebalance_worker,
}
use distributed_image_proces.Scheduler.Invariant.{
  TaskOk, WellFormed, insert-Valid, insert_job-Valid, persist-WellFormed,
}
use distributed_image_proces.Scheduler.Invariant.Updates.{
  same-TaskOk, drained_task-TaskOk, requeued-TaskOk, fresh_task-TaskOk,
}
use distributed_image_proces.Scheduler.Invariant.Methods.{task_ok, update_job-WellFormed}

-- A finished or failed task keeps its names and its lease.
add_tasks-WellFormed :
    (ids : ℕ → String) (i : ℕ) (job : Job) (shards : List String) (s : Scheduler)
    → lookup job.id s.jobs ≢ none
    → WellFormed s
    → WellFormed (add_tasks ids i job shards s)
unfolding add_tasks
add_tasks-WellFormed ids i job [] s known v = v
add_tasks-WellFormed ids i job (shard ∷ shards) s known v =
    add_tasks-WellFormed ids (i + 1) job shards _ known
      (insert-Valid (ids i) _ v (fresh_task-TaskOk s.jobs (ids i) shard job s.max_retries known))

insert_self_known :
    (k : String) (j : Job) (jobs : List (String × Job)) → lookup k (insert k j jobs) ≢ none
insert_self_known k j jobs = ground (arith, lookup-insert k k j jobs)

-- Submit keeps the invariant.
pub submit-WellFormed :
    (ids : ℕ → String) (now : ℕ) (req : SubmitJobRequest) (s : Scheduler)
    → WellFormed s
    → WellFormed (submit ids now req s).1
unfolding submit
submit-WellFormed ids now req s v =
    let job = started_job (ids 0) now req in
    let s' = record s { jobs = insert job.id job s.jobs } in
    persist-WellFormed (add_tasks ids 1 job job.shards s') (
      add_tasks-WellFormed ids 1 job job.shards s' (insert_self_known job.id job s.jobs)
        (insert_job-Valid job.id job v refl))

drain_one-WellFormed :
    (now : ℕ) (tid : String) (s : Scheduler) → WellFormed s → WellFormed (drain_one now tid s).1
unfolding drain_one
drain_one-WellFormed now tid s v = elim (Option-cases (lookup tid s.tasks)) [
  | inl e ↦ rw (e, drain_one) v
  | inr (t, e) ↦ elim (Option-cases (lookup t.job_id s.jobs)) [
    | inl f ↦ rw (e, f, drain_one) v
    | inr (job, f) ↦ elim (Bool-cases (is_pending t.status)) [
      | inl p ↦
          rw (e, f, p, drain_one)
            (insert-Valid tid _ v (drained_task-TaskOk s.lease_chunk now t (task_ok s tid t v e)))
      | inr p ↦ rw (e, f, p, drain_one) v
    ]
  ]
]

drain_ids-WellFormed :
    (now : ℕ) (ids : List String) (s : Scheduler)
    → WellFormed s
    → WellFormed (drain_ids now ids s).1
unfolding drain_ids
drain_ids-WellFormed now [] s v = v
drain_ids-WellFormed now (tid ∷ ids) s v =
    drain_ids-WellFormed now ids (drain_one now tid s).1 (drain_one-WellFormed now tid s v)

pub drain-WellFormed : (now n : ℕ) (s : Scheduler) → WellFormed s → WellFormed (drain now n s).1
unfolding drain
drain-WellFormed now n s v =
    let s' = record s { pending_q = drop n s.pending_q } in
    persist-WellFormed (drain_ids now (take n s.pending_q) s').1
      (drain_ids-WellFormed now (take n s.pending_q) s' v)

-- A task that fails for good keeps its names and its lease.
failed-TaskOk :
    {jobs : List (String × Job)} {k : String} (t : Task)
    → TaskOk jobs k t
    → TaskOk jobs k (record t { status = TaskStatus.failed })
failed-TaskOk t ok = same-TaskOk t _ refl refl (let o = ok.ordered in ground arith) ok

give_up-WellFormed :
    (now : ℕ) (k : String) (t : Task) (s : Scheduler) (n : ℕ)
    → WellFormed s
    → TaskOk s.jobs k t
    → WellFormed (give_up now k t (s, n)).0
unfolding give_up
give_up-WellFormed now k t s n v ok = elim (Bool-cases (ltb t.retries t.max_retries)) [
  | inl r ↦ rw r (insert-Valid k (requeued t) v (requeued-TaskOk t ok))
  | inr r ↦ rw r (
      update_job-WellFormed t.job_id now
        (record s { tasks = insert k (record t { status = TaskStatus.failed }) s.tasks })
        (insert-Valid k _ v (failed-TaskOk t ok)))
]

rebalance_one-WellFormed :
    (worker : String) (now : ℕ) (k : String) (s : Scheduler) (n : ℕ)
    → WellFormed s
    → WellFormed (rebalance_one worker now k (s, n)).0
unfolding rebalance_one
rebalance_one-WellFormed worker now k s n v = elim (Option-cases (lookup k s.tasks)) [
  | inl e ↦ rw (e, rebalance_one) v
  | inr (t, e) ↦ elim (Bool-cases (held_by worker t)) [
    | inl h ↦ rw (e, rebalance_one) (rw h (give_up-WellFormed now k t s n v (task_ok s k t v e)))
    | inr h ↦ rw (e, rebalance_one) (rw h v)
  ]
]

rebalance_keys-WellFormed :
    (worker : String) (now : ℕ) (ks : List String) (s : Scheduler) (n : ℕ)
    → WellFormed s
    → WellFormed (rebalance_keys worker now ks (s, n)).0
unfolding rebalance_keys
rebalance_keys-WellFormed worker now [] s n v = v
rebalance_keys-WellFormed worker now (k ∷ ks) s n v =
    let r = rebalance_one worker now k (s, n) in
    rebalance_keys-WellFormed worker now ks r.0 r.1 (rebalance_one-WellFormed worker now k s n v)

-- RebalanceWorker keeps the invariant.
pub rebalance_worker-WellFormed :
    (worker : String) (now : ℕ) (s : Scheduler)
    → WellFormed s
    → WellFormed (rebalance_worker worker now s)
unfolding rebalance_worker
rebalance_worker-WellFormed worker now s v =
    let r = rebalance_keys worker now (keys s.tasks) (s, 0) in
    let ok : WellFormed r.0 = rebalance_keys-WellFormed worker now (keys s.tasks) s 0 v in
    elim (Bool-cases (ltb 0 r.1)) [ inl p ↦ rw p (persist-WellFormed r.0 ok) | inr p ↦ rw p ok ]

-- DrainPending keeps the invariant.
pub drain_pending-WellFormed :
    (now : ℕ) (n : ℤ) (s : Scheduler)
    → WellFormed s
    → IfSome (λ r. WellFormed r.1) (drain_pending now n s)
unfolding drain_pending
drain_pending-WellFormed now (negsuc _) s v = tt
drain_pending-WellFormed now (pos n) s v =
    let m = if ltb (length s.pending_q) n then length s.pending_q else n in
    elim (Bool-cases (m == 0)) [ inl e ↦ rw e v | inr e ↦ rw e (drain-WellFormed now m s v) ]
