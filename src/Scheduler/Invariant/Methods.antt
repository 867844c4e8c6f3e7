-- ===== src/Scheduler/Invariant/Methods.antt =====
-- The invariant through the methods on single tasks.
use distributed_image_proces.Prelude.{
  ℕ, ◌≡◌, refl, String, none, some, List, lookup, insert, AllEntries-lookup, Option-cases, inl, inr,
  get_elem?, IfSome, IfSome-bind, IfSome-some, arith, ◌∙◌,
}
use distributed_image_proces.Scheduler.Job.{Job, Task, RenewLeaseRequest}
use distributed_image_proces.Scheduler.State.{Scheduler}
use distributed_image_proces.Scheduler.Lease.Bounds.{NoOverflow}
use distributed_image_proces.Scheduler.Steal.{stolen_task, shrink, count_task, split_victim, steal}
use distributed_image_proces.Scheduler.Steal.Victim.{Stolen, steal-Stolen}
use distributed_image_proces.Scheduler.Dispatch.{
  assigned_task, assignment_for, assign, assign_and_persist, poll_steal, poll_queued, choose,
  poll_tasks,
}
use distributed_image_proces.Scheduler.Settle.{
  start_task, renew_lease, update_job, settled_job, Counts, count_tasks, no_counts,
}
use distributed_image_proces.Scheduler.Invariant.{
  TaskOk, Valid, WellFormed, insert-Valid, insert_job-Valid, persist-WellFormed,
}
use distributed_image_proces.Scheduler.Invariant.Updates.{
  same-TaskOk, assigned_task-TaskOk, renew-TaskOk, shrink-TaskOk, stolen_task-TaskOk,
}

pub task_ok :
    (s : Scheduler) (k : String) (t : Task)
    → WellFormed s
    → lookup k s.tasks ≡ some t
    → TaskOk s.jobs k t
task_ok s k t v e = AllEntries-lookup (TaskOk s.jobs) k t s.tasks v.entries e

count_task-Valid :
    {chunk : ℕ} {tasks : List (String × Task)} (job_id : String) (jobs : List (String × Job))
    → Valid chunk jobs tasks
    → Valid chunk (count_task job_id jobs) tasks
unfolding count_task
count_task-Valid job_id jobs v = elim (Option-cases (lookup job_id jobs)) [
  | inl e ↦ rw (e, count_task) v
  | inr (j, e) ↦
      rw (e, count_task)
        (insert_job-Valid job_id _ v
          (AllEntries-lookup (λ i j. j.id ≡ i) job_id j jobs v.jobs_keyed e))
]

pub steal-WellFormed :
    (new_id : String) (s : Scheduler) {r : Task × Scheduler}
    → WellFormed s
    → steal new_id s ≡ some r
    → WellFormed r.1
unfolding split_victim
steal-WellFormed new_id s {r} v h =
    let t : Stolen new_id s r = steal-Stolen new_id s v.distinct h in
    let ok = task_ok s t.key t.victim v t.present in
    rw t.result (
      count_task-Valid t.victim.job_id s.jobs (
        insert-Valid new_id (stolen_task new_id t.split t.victim)
          (insert-Valid t.key (shrink t.split t.victim) v
            (shrink-TaskOk t.split t.victim (omega arith) ok))
          (stolen_task-TaskOk new_id t.split t.end t.victim t.known (omega arith) ok)))

pub assign-WellFormed :
    (tid worker : String) (now : ℕ) (s : Scheduler)
    → WellFormed s
    → IfSome (λ r. WellFormed r.1) (assign tid worker now s)
unfolding assign
assign-WellFormed tid worker now s v = IfSome-bind _ (lookup tid s.tasks) _ λ t e.
    let u = assigned_task s.lease_chunk worker now t in
    IfSome-bind _ (assignment_for u (record s { tasks = insert tid u s.tasks })) _ λ a _.
      insert-Valid tid _ v (assigned_task-TaskOk s.lease_chunk worker now t (task_ok s tid t v e))

assign_and_persist-WellFormed :
    (tid worker : String) (now : ℕ) (s : Scheduler)
    → WellFormed s
    → IfSome (λ r. WellFormed r.1) (assign_and_persist tid worker now s)
unfolding assign_and_persist
assign_and_persist-WellFormed tid worker now s v = IfSome-bind _ (assign tid worker now s) _ λ r e.
    persist-WellFormed r.1
      (IfSome-some (λ q. WellFormed q.1) _ r (assign-WellFormed tid worker now s v) e)

poll_steal-WellFormed :
    (new_id worker : String) (now : ℕ) (s : Scheduler)
    → WellFormed s
    → IfSome (λ r. WellFormed r.1) (poll_steal new_id worker now s)
unfolding poll_steal
poll_steal-WellFormed new_id worker now s v = elim (Option-cases (steal new_id s)) [
  | inl e ↦ rw (e, poll_steal) v
  | inr (r, e) ↦
      rw (e, poll_steal)
        (assign_and_persist-WellFormed r.0.id worker now r.1 (steal-WellFormed new_id s v e))
]

-- PollTasks keeps the invariant, whether it hands out a queued task, a stolen one, or nothing.
pub poll_tasks-WellFormed :
    (owner_of : String → String) (new_id worker : String) (now : ℕ) (s : Scheduler)
    → WellFormed s
    → IfSome (λ r. WellFormed r.1) (poll_tasks owner_of new_id worker now s)
unfolding poll_tasks poll_queued
poll_tasks-WellFormed owner_of new_id worker now s v =
    elim (Option-cases (choose owner_of worker s.tasks 0 none s.pending_q)) [
      | inl e ↦ rw (e, poll_tasks) (poll_steal-WellFormed new_id worker now s v)
      | inr (idx, e) ↦
          rw (e, poll_tasks)
            (IfSome-bind _ (get_elem? s.pending_q idx) _
              λ tid _. assign_and_persist-WellFormed tid worker now _ v)
    ]

settled_job-id : (now : ℕ) (c : Counts) (j : Job) → (settled_job now c j).id ≡ j.id
unfolding settled_job
settled_job-id now c j = ground arith

pub update_job-WellFormed :
    (job_id : String) (now : ℕ) (s : Scheduler)
    → WellFormed s
    → WellFormed (update_job job_id now s)
unfolding update_job
update_job-WellFormed job_id now s v = elim (Option-cases (lookup job_id s.jobs)) [
  | inl e ↦ rw (e, update_job) v
  | inr (j, e) ↦
      rw (e, update_job)
        (insert_job-Valid job_id _ v (
          settled_job-id now (count_tasks job_id s.tasks no_counts) j
          ∙ AllEntries-lookup (λ i j. j.id ≡ i) job_id j s.jobs v.jobs_keyed e))
]

pub start_task-WellFormed :
    (task_id : String) (now : ℕ) (s : Scheduler)
    → WellFormed s
    → IfSome WellFormed (start_task task_id now s)
unfolding start_task
start_task-WellFormed task_id now s v = IfSome-bind _ (lookup task_id s.tasks) _ λ t e.
    persist-WellFormed _ (
      insert-Valid task_id _ v (
        let ok = task_ok s task_id t v e in
        same-TaskOk t _ refl refl (let o = ok.ordered in ground arith) ok))

-- RenewLease keeps the invariant, whatever the worker reports short of overflowing an int64.
pub renew_lease-WellFormed :
    (task_id : String) (req : RenewLeaseRequest) (s : Scheduler)
    → WellFormed s
    → ((t : Task) → lookup task_id s.tasks ≡ some t → NoOverflow s.lease_chunk req t)
    → IfSome (λ r. WellFormed r.1) (renew_lease task_id req s)
unfolding renew_lease
renew_lease-WellFormed task_id req s v small = IfSome-bind _ (lookup task_id s.tasks) _ λ t e.
    persist-WellFormed _ (
      insert-Valid task_id _ v
        (renew-TaskOk s.lease_chunk req t v.chunk_pos (small t e) (task_ok s task_id t v e)))
