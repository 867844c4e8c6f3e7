-- ===== src/Scheduler/Invariant/Updates.antt =====
-- The invariant of one task through the updates of its fields.
use distributed_image_proces.Prelude.{
  ℕ, ◌≡◌, ◌≢◌, ◌<◌, ◌≤◌, refl, ◌∙◌, String, none, List, lookup, pos, arith,
}
use distributed_image_proces.Scheduler.Job.{Job, Task, RenewLeaseRequest}
use distributed_image_proces.Scheduler.Lease.{grant, renew, reset_lease, reported}
use distributed_image_proces.Scheduler.Lease.Bounds.{
  LeaseOrdered, NoOverflow, grant-LeaseOrdered, renew-LeaseOrdered,
}
use distributed_image_proces.Scheduler.Steal.{stolen_task, shrink}
use distributed_image_proces.Scheduler.Dispatch.{fresh_task, assigned_task}
use distributed_image_proces.Scheduler.Drain.{drained_task}
use distributed_image_proces.Scheduler.Settle.{requeued}
use distributed_image_proces.Scheduler.Invariant.{TaskOk}

-- A grant and a renewal keep a task's names.
grant_names :
    (chunk : ℕ) (t : Task)
    → ((grant chunk t).id ≡ t.id)
      × ((grant chunk t).job_id ≡ t.job_id)
      × ((grant chunk t).shard ≡ t.shard)
unfolding grant
grant_names chunk t = ground arith

reported_names :
    (req : RenewLeaseRequest) (t : Task)
    → ((reported req t).id ≡ t.id)
      × ((reported req t).job_id ≡ t.job_id)
      × ((reported req t).shard ≡ t.shard)
unfolding reported
reported_names req t = ground arith

pub renew_names :
    (chunk : ℕ) (req : RenewLeaseRequest) (t : Task)
    → ((renew chunk req t).id ≡ t.id)
      × ((renew chunk req t).job_id ≡ t.job_id)
      × ((renew chunk req t).shard ≡ t.shard)
unfolding renew
renew_names chunk req t =
    let g = grant_names chunk (reported req t) in
    let r = reported_names req t in (g.0 ∙ r.0, g.1 ∙ r.1, g.2 ∙ r.2)

module _ {jobs : List (String × Job)} {k : String} where
  pub grant-TaskOk : (chunk : ℕ) (t : Task) → TaskOk jobs k t → TaskOk jobs k (grant chunk t)
  grant-TaskOk chunk t ok = record {
    id_key = (grant_names chunk t).0 ∙ ok.id_key;
    ordered = grant-LeaseOrdered chunk t ok.ordered;
    job_known = rw (grant_names chunk t).1 ok.job_known;
  }

  -- A change of the bookkeeping fields.
  pub same-TaskOk :
      (t u : Task)
      → u.id ≡ t.id
      → u.job_id ≡ t.job_id
      → LeaseOrdered u
      → TaskOk jobs k t
      → TaskOk jobs k u
  same-TaskOk t u a b o ok = record {
    id_key = a ∙ ok.id_key;
    ordered = o;
    job_known = rw b ok.job_known;
  }

  -- An equal lease is in order.
  pub assigned_task-TaskOk :
      (chunk : ℕ) (worker : String) (now : ℕ) (t : Task)
      → TaskOk jobs k t
      → TaskOk jobs k (assigned_task chunk worker now t)
  unfolding assigned_task
  assigned_task-TaskOk chunk worker now t ok =
      grant-TaskOk chunk _ (same-TaskOk t _ refl refl (let o = ok.ordered in ground arith) ok)

  pub drained_task-TaskOk :
      (chunk now : ℕ) (t : Task) → TaskOk jobs k t → TaskOk jobs k (drained_task chunk now t)
  unfolding drained_task
  drained_task-TaskOk chunk now t ok =
      grant-TaskOk chunk _ (same-TaskOk t _ refl refl (let o = ok.ordered in ground arith) ok)

  pub requeued-TaskOk : (t : Task) → TaskOk jobs k t → TaskOk jobs k (requeued t)
  unfolding requeued reset_lease
  requeued-TaskOk t ok = same-TaskOk t _ refl refl (let o = ok.ordered in ground arith) ok

  pub renew-TaskOk :
      (chunk : ℕ) (req : RenewLeaseRequest) (t : Task)
      → 0 < chunk
      → NoOverflow chunk req t
      → TaskOk jobs k t
      → TaskOk jobs k (renew chunk req t)
  renew-TaskOk chunk req t p n ok =
      same-TaskOk t _ (renew_names chunk req t).0 (renew_names chunk req t).1
        (renew-LeaseOrdered chunk req t p n ok.ordered) ok

  pub shrink-TaskOk :
      (split : ℕ) (t : Task) → t.granted ≤ split → TaskOk jobs k t → TaskOk jobs k (shrink split t)
  unfolding shrink
  shrink-TaskOk split t h ok = same-TaskOk t _ refl refl (let o = ok.ordered in ground arith) ok

  pub stolen_task-TaskOk :
      (new_id : String) (split e : ℕ) (t : Task)
      → t.range_end ≡ pos e
      → split ≤ e
      → TaskOk jobs k t
      → TaskOk jobs new_id (stolen_task new_id split t)
  unfolding stolen_task
  stolen_task-TaskOk new_id split e t known h ok = record {
    id_key = refl;
    ordered = ground arith;
    job_known = ok.job_known;
  }

pub fresh_task-TaskOk :
    (jobs : List (String × Job)) (id shard : String) (job : Job) (max_retries : ℕ)
    → lookup job.id jobs ≢ none
    → TaskOk jobs id (fresh_task id shard job max_retries)
unfolding fresh_task
fresh_task-TaskOk jobs id shard job max_retries h = record {
  id_key = refl;
  ordered = ground arith;
  job_known = h;
}
