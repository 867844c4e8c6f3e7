-- ===== src/Scheduler/Steps.antt =====
-- The scheduler as a transition system: each locked section of a method is one step, in any order.
pub mod Ranges
pub mod Requeues
pub mod Partition
use distributed_image_proces.Prelude.{
  ℕ, ◌≡◌, String, Option, some, List, lookup, ℤ, IfSome-some, arith, pos, negsuc, ltb, length, ◌==◌,
  Bool-cases, inl, inr,
}
use distributed_image_proces.Scheduler.Job.{
  Job, Task, TaskAssignment, RenewLeaseRequest, LeaseRenewal, SubmitJobRequest, ResultRequest,
}
use distributed_image_proces.Scheduler.State.{Scheduler, new}
use distributed_image_proces.Scheduler.Lease.Bounds.{NoOverflow}
use distributed_image_proces.Scheduler.Dispatch.{submit, poll_tasks}
use distributed_image_proces.Scheduler.Drain.{drain_pending}
use distributed_image_proces.Scheduler.Settle.{start_task, renew_lease, rebalance_worker}
use distributed_image_proces.Scheduler.Report.{finish_report}
use distributed_image_proces.Scheduler.Invariant.{WellFormed}
use distributed_image_proces.Scheduler.Invariant.Methods.{
  poll_tasks-WellFormed, start_task-WellFormed, renew_lease-WellFormed,
}
use distributed_image_proces.Scheduler.Invariant.Settling.{
  submit-WellFormed, drain_pending-WellFormed, rebalance_worker-WellFormed,
}
use distributed_image_proces.Scheduler.Invariant.Reporting.{finish_report-WellFormed}

-- A renewal's offsets stay within an int64.
abbrev pub Fits : String → RenewLeaseRequest → Scheduler → Type 0
Fits task_id req s = (t : Task) → lookup task_id s.tasks ≡ some t → NoOverflow s.lease_chunk req t

pub data Step (s : Scheduler) : Scheduler → Type 0 where
  submitted :
      (ids : ℕ → String) (now : ℕ) (req : SubmitJobRequest) → Step s (submit ids now req s).1
  polled :
      (owner_of : String → String) (new_id worker : String) (now : ℕ) (a : Option TaskAssignment)
      {s' : Scheduler}
      → poll_tasks owner_of new_id worker now s ≡ some (a, s')
      → Step s s'
  started :
      (task_id : String) (now : ℕ) {s' : Scheduler} → start_task task_id now s ≡ some s' → Step s s'
  renewed :
      (task_id : String) (req : RenewLeaseRequest) (r : LeaseRenewal) {s' : Scheduler}
      → Fits task_id req s
      → renew_lease task_id req s ≡ some (r, s')
      → Step s s'
  settled :
      (task_id : String) (req : ResultRequest) (now : ℕ)
      → Step s (finish_report task_id req now s).1
  rebalanced : (worker : String) (now : ℕ) → Step s (rebalance_worker worker now s)
  drained :
      (now : ℕ) (n : ℤ) (out : List TaskAssignment) {s' : Scheduler}
      → drain_pending now n s ≡ some (out, s')
      → Step s s'

pub data Reach (s : Scheduler) : Scheduler → Type 0 where
  here : Reach s s
  next : {t u : Scheduler} → Reach s t → Step t u → Reach s u

Step-WellFormed : {s t : Scheduler} → Step s t → WellFormed s → WellFormed t
Step-WellFormed {s} (submitted ids now req) v = submit-WellFormed ids now req s v
Step-WellFormed {s} (polled owner_of new_id worker now a e) v =
    IfSome-some (λ r. WellFormed r.1) _ _ (poll_tasks-WellFormed owner_of new_id worker now s v) e
Step-WellFormed {s} (started task_id now e) v =
    IfSome-some WellFormed _ _ (start_task-WellFormed task_id now s v) e
Step-WellFormed {s} (renewed task_id req r small e) v =
    IfSome-some (λ q. WellFormed q.1) _ _ (renew_lease-WellFormed task_id req s v small) e
Step-WellFormed {s} (settled task_id req now) v = finish_report-WellFormed task_id req now s v
Step-WellFormed {s} (rebalanced worker now) v = rebalance_worker-WellFormed worker now s v
Step-WellFormed {s} (drained now n out e) v =
    IfSome-some (λ q. WellFormed q.1) _ _ (drain_pending-WellFormed now n s v) e

-- The invariant holds of a new scheduler.
pub new-WellFormed : (max_retries : ℕ) → WellFormed (new max_retries)
unfolding new
new-WellFormed max_retries = record {
  chunk_pos = omega arith;
  distinct = tt;
  entries = tt;
  jobs_distinct = tt;
  jobs_keyed = tt;
}

-- Any calls in any order, from a state that satisfies the invariant, lead to states that satisfy it:
-- the keys of the task map are the tasks' ids and are distinct, every task has its job, and every
-- lease has its start, its frontier and its grant in order, with the frontier within a known end, and,
-- once the range was split, with a known end and the grant within it. The offsets of each renewal among
-- the calls and the chunk must add up within an int64.
pub Reach-WellFormed : {s t : Scheduler} → WellFormed s → Reach s t → WellFormed t
Reach-WellFormed v here = v
Reach-WellFormed v (next r st) = Step-WellFormed st (Reach-WellFormed v r)
