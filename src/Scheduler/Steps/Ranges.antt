-- ===== src/Scheduler/Steps/Ranges.antt =====
-- The ranges of the tasks through the methods other than Submit and the steal.
use distributed_image_proces.Scheduler.Settle.{update_job, start_task, requeued}
use distributed_image_proces.Scheduler.Dispatch.{assign, assigned_task, assignment_for}
use distributed_image_proces.Scheduler.Drain.{drained_task}
use distributed_image_proces.Prelude.{
  ℕ, ◌≡◌, arith, String, List, Option-cases, lookup, inl, some, inr, insert, sum_map-insert, IfSome,
  IfSome-bind, ◌∙◌, refl,
}
use distributed_image_proces.Scheduler.Job.{Task, TaskStatus}
use distributed_image_proces.Scheduler.State.{Scheduler, persist}
use distributed_image_proces.Scheduler.Lease.{grant, reset_lease}
use distributed_image_proces.Scheduler.Steal.Tiling.{covers, owned, owners}

-- The part of a task that says which items it owns.
pub record SameRange (t u : Task) : Type 0 where
  pub job_id : u.job_id ≡ t.job_id
  pub shard : u.shard ≡ t.shard
  pub start : u.range_start ≡ t.range_start
  pub end : u.range_end ≡ t.range_end

grant-SameRange : (chunk : ℕ) (t : Task) → SameRange t (grant chunk t)
unfolding grant
grant-SameRange chunk t = ground arith

pub assigned_task-SameRange :
    (chunk : ℕ) (worker : String) (now : ℕ) (t : Task)
    → SameRange t (assigned_task chunk worker now t)
unfolding assigned_task
assigned_task-SameRange chunk worker now t =
    let g =
      grant-SameRange chunk
        (record t { status = TaskStatus.assigned; worker_id = worker; assigned_at = some now }) in
    record { job_id = g.job_id; shard = g.shard; start = g.start; end = g.end }

pub drained_task-SameRange : (chunk now : ℕ) (t : Task) → SameRange t (drained_task chunk now t)
unfolding drained_task
drained_task-SameRange chunk now t =
    let g =
      grant-SameRange chunk (record t { status = TaskStatus.assigned; assigned_at = some now }) in
    record { job_id = g.job_id; shard = g.shard; start = g.start; end = g.end }

pub requeued-SameRange : (t : Task) → SameRange t (requeued t)
unfolding requeued reset_lease
requeued-SameRange t = record { job_id = refl; shard = refl; start = refl; end = refl }

module _ (job_id shard : String) (i : ℕ) where
  -- The items of one state's tasks are owned as those of another's.
  abbrev pub Keeps : Scheduler → Scheduler → Type 0
  Keeps s s' = owners job_id shard i s'.tasks ≡ owners job_id shard i s.tasks

  owned-SameRange : (t u : Task) → SameRange t u → owned job_id shard i u ≡ owned job_id shard i t
  unfolding covers
  owned-SameRange t u r = rw (r.job_id, r.shard, r.start, r.end)

  pub owners-insert :
      (k : String) (t u : Task) (tasks : List (String × Task))
      → lookup k tasks ≡ some t
      → owned job_id shard i u ≡ owned job_id shard i t
      → owners job_id shard i (insert k u tasks) ≡ owners job_id shard i tasks
  unfolding owners
  owners-insert k t u tasks e same = ground (arith, sum_map-insert (owned job_id shard i) k u tasks)

  pub Keeps-insert :
      (k : String) (t u : Task) (tasks : List (String × Task))
      → lookup k tasks ≡ some t
      → SameRange t u
      → owners job_id shard i (insert k u tasks) ≡ owners job_id shard i tasks
  Keeps-insert k t u tasks e r = owners-insert k t u tasks e (owned-SameRange t u r)

  pub persist-Keeps : (s : Scheduler) → Keeps s (persist s)
  unfolding persist
  persist-Keeps s = elim (Option-cases s.store) [
    | inl e ↦ rw (e, persist)
    | inr (log, e) ↦ rw (e, persist)
  ]

  pub update_job-Keeps : (id : String) (now : ℕ) (s : Scheduler) → Keeps s (update_job id now s)
  unfolding update_job
  update_job-Keeps id now s = elim (Option-cases (lookup id s.jobs)) [
    | inl e ↦ rw (e, update_job)
    | inr (j, e) ↦ rw (e, update_job)
  ]

  pub assign-Keeps :
      (tid worker : String) (now : ℕ) (s : Scheduler)
      → IfSome (λ r. Keeps s r.1) (assign tid worker now s)
  unfolding assign
  assign-Keeps tid worker now s = IfSome-bind _ (lookup tid s.tasks) _ λ t e.
      let u = assigned_task s.lease_chunk worker now t in
      IfSome-bind _ (assignment_for u (record s { tasks = insert tid u s.tasks })) _
        λ a _. Keeps-insert tid t u s.tasks e (assigned_task-SameRange s.lease_chunk worker now t)

  pub start_task-Keeps :
      (task_id : String) (now : ℕ) (s : Scheduler) → IfSome (Keeps s) (start_task task_id now s)
  unfolding start_task
  start_task-Keeps task_id now s = IfSome-bind _ (lookup task_id s.tasks) _ λ t e.
      let u = record t { status = TaskStatus.running; started_at = some now } in
      persist-Keeps (record s { tasks = insert task_id u s.tasks })
      ∙ Keeps-insert task_id t u s.tasks e
          (record { job_id = refl; shard = refl; start = refl; end = refl })
