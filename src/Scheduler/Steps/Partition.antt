-- ===== src/Scheduler/Steps/Partition.antt =====
-- The partition of a dataset's items among tasks, through any run of the scheduler.
use distributed_image_proces.Scheduler.Lease.Bounds.{LeaseOrdered}
use distributed_image_proces.Scheduler.Steps.Requeues.{
  failing-Keeps, rebalance_worker-Keeps, drain_pending-Keeps,
}
use distributed_image_proces.Scheduler.Steps.{
  Reach, Reach-WellFormed, Step, submitted, here, polled, next, started, renewed, settled,
  rebalanced, drained,
}
use distributed_image_proces.Scheduler.Steal.{steal}
use distributed_image_proces.Scheduler.Invariant.{WellFormed, TaskOk}
use distributed_image_proces.Scheduler.Settle.{renew_lease}
use distributed_image_proces.Scheduler.Report.{
  finish_report, report_failure, report_success, is_empty,
}
use distributed_image_proces.Scheduler.Dispatch.{
  assign_and_persist, poll_tasks, poll_queued, poll_steal, assign, choose,
}
use distributed_image_proces.Scheduler.Lease.{
  clamp_frontier, fix_end, grant, renew, advance, reported,
}
use distributed_image_proces.Prelude.{
  ℕ, ◌≡◌, refl, String, pos, ◌⊎◌, arith, ◌<◌, IfSome, ltb_ℤ, inl, ◌∙◌, lookup, IfSome-bind, false,
  string_discrete, some, Option-cases, inr, none, insert, Bool-cases, IfSome-some, get_elem?,
  remove_at, IfSome-mono, ◌++◌, AllEntries-mono, ◌∷◌, [], not, ltb,
}
use distributed_image_proces.Scheduler.Job.{
  Task, TaskStatus, RenewLeaseRequest, ResultRequest, is_done,
}
use distributed_image_proces.Scheduler.State.{Scheduler}
use distributed_image_proces.Scheduler.Steal.Tiling.{covers, owned, owners, owners-steal}
use distributed_image_proces.Scheduler.Steps.Ranges.{
  Keeps, persist-Keeps, owners-insert, assign-Keeps, start_task-Keeps, update_job-Keeps,
  Keeps-insert,
}

-- A worker that reports the size of a shard reports its true size.
abbrev pub Honest : (String → String → ℕ) → RenewLeaseRequest → Task → Type 0
Honest size req t = (req.total ≡ pos (size t.job_id t.shard)) ⊎ (ltb_ℤ (pos 0) req.total ≡ false)

module _ (job_id shard : String) (i : ℕ) where
  grant-owned :
      (chunk : ℕ) (t : Task) → owned job_id shard i (grant chunk t) ≡ owned job_id shard i t
  unfolding grant covers
  grant-owned chunk t = ground arith

  moved-owned :
      (req : RenewLeaseRequest) (t : Task)
      → owned job_id shard i (clamp_frontier (advance req t)) ≡ owned job_id shard i t
  unfolding clamp_frontier advance covers
  moved-owned req t = ground arith

  fix_end-owned :
      (size : String → String → ℕ) (req : RenewLeaseRequest) (t : Task)
      → i < size job_id shard
      → Honest size req t
      → owned job_id shard i (fix_end req t) ≡ owned job_id shard i t
  unfolding fix_end covers
  fix_end-owned size req t small (inl e) = elim (string_discrete t.job_id job_id) [
    | no n ↦ ground arith
    | yes p ↦ elim (string_discrete t.shard shard) [
      | no n ↦ ground arith
      | yes q ↦ let same : size t.job_id t.shard ≡ size job_id shard = rw (p, q) in ground arith
    ]
  ]
  fix_end-owned size req t small (inr e) = ground arith

  renew-owned :
      (size : String → String → ℕ) (chunk : ℕ) (req : RenewLeaseRequest) (t : Task)
      → i < size job_id shard
      → Honest size req t
      → owned job_id shard i (renew chunk req t) ≡ owned job_id shard i t
  unfolding renew reported
  renew-owned size chunk req t small h =
      grant-owned chunk (reported req t)
      ∙ moved-owned req (fix_end req t)
      ∙ fix_end-owned size req t small h

  renew_lease-Keeps :
      (size : String → String → ℕ) (task_id : String) (req : RenewLeaseRequest) (s : Scheduler)
      → i < size job_id shard
      → ((t : Task) → lookup task_id s.tasks ≡ some t → Honest size req t)
      → IfSome (λ r. Keeps job_id shard i s r.1) (renew_lease task_id req s)
  unfolding renew_lease
  renew_lease-Keeps size task_id req s small h = IfSome-bind _ (lookup task_id s.tasks) _ λ t e.
      let u = renew s.lease_chunk req t in
      persist-Keeps job_id shard i (record s { tasks = insert task_id u s.tasks })
      ∙ owners-insert job_id shard i task_id t u s.tasks e
          (renew-owned size s.lease_chunk req t small (h t e))

  finish_report-Keeps :
      (task_id : String) (req : ResultRequest) (now : ℕ) (s : Scheduler)
      → Keeps job_id shard i s (finish_report task_id req now s).1
  unfolding finish_report report_failure report_success
  finish_report-Keeps task_id req now s = elim (Option-cases (lookup task_id s.tasks)) [
    | inl e ↦ rw (e, finish_report)
    | inr (t, e) ↦ elim (Bool-cases (is_done t.status)) [
      | inl d ↦ rw (e, finish_report) (rw d refl)
      | inr d ↦
          let u = record t {
            finished_at = some now;
            worker_id = req.worker_id;
            error = req.error;
          } in
          let w = record t {
            finished_at = some now;
            worker_id = req.worker_id;
            status = TaskStatus.done;
          } in
          let (again, over) =
            failing-Keeps job_id shard i now task_id t u (s.pending_q ++ t.id ∷ []) s e
              (record { job_id = refl; shard = refl; start = refl; end = refl }) in
          elim (Bool-cases (not (is_empty req.error))) [
            | inr f ↦
                rw (e, finish_report)
                  (rw (d, f)
                    (persist-Keeps job_id shard i _
                      ∙ (update_job-Keeps job_id shard i t.job_id now
                            (record s { tasks = insert task_id w s.tasks })
                          ∙ Keeps-insert job_id shard i task_id t w s.tasks e
                              (record { job_id = refl; shard = refl; start = refl; end = refl }))))
            | inl f ↦ elim (Bool-cases (ltb t.retries t.max_retries)) [
              | inl r ↦
                  rw (e, finish_report) (rw (d, f, r) (persist-Keeps job_id shard i _ ∙ again))
              | inr r ↦ rw (e, finish_report) (rw (d, f, r) (persist-Keeps job_id shard i _ ∙ over))
            ]
          ]
    ]
  ]

  assign_and_persist-Keeps :
      (tid worker : String) (now : ℕ) (s : Scheduler)
      → IfSome (λ r. Keeps job_id shard i s r.1) (assign_and_persist tid worker now s)
  unfolding assign_and_persist
  assign_and_persist-Keeps tid worker now s = IfSome-bind _ (assign tid worker now s) _ λ r e.
      persist-Keeps job_id shard i r.1
      ∙ IfSome-some (λ q. Keeps job_id shard i s q.1) _ r
          (assign-Keeps job_id shard i tid worker now s) e

  poll_tasks-Keeps :
      (owner_of : String → String) (new_id worker : String) (now : ℕ) (s : Scheduler)
      → WellFormed s
      → lookup new_id s.tasks ≡ none
      → IfSome (λ r. Keeps job_id shard i s r.1) (poll_tasks owner_of new_id worker now s)
  unfolding poll_tasks poll_queued poll_steal
  poll_tasks-Keeps owner_of new_id worker now s v fresh =
      elim (Option-cases (choose owner_of worker s.tasks 0 none s.pending_q)) [
        | inr (idx, e) ↦
            rw (e, poll_tasks)
              (IfSome-bind _ (get_elem? s.pending_q idx) _ λ tid _.
                assign_and_persist-Keeps tid worker now
                  (record s { pending_q = remove_at s.pending_q idx }))
        | inl e ↦ elim (Option-cases (steal new_id s)) [
          | inl f ↦ rw (e, poll_tasks) (rw (f, poll_steal) refl)
          | inr (r, f) ↦
              rw (e, poll_tasks)
                (rw (f, poll_steal)
                  (IfSome-mono (λ q. Keeps job_id shard i r.1 q.1) (λ q. Keeps job_id shard i s q.1)
                    _
                    (λ q same.
                      same
                      ∙ owners-steal new_id s v.distinct
                          (AllEntries-mono (TaskOk s.jobs) (λ _ t. LeaseOrdered t) s.tasks
                            (λ k t ok. ok.ordered) v.entries)
                          fresh f job_id shard i)
                    (assign_and_persist-Keeps r.0.id worker now r.1)))
        ]
      ]

-- A step that submits no job, draws a new id for a stolen task, and is told the true sizes.
abbrev pub Ordinary : (String → String → ℕ) → {s t : Scheduler} → Step s t → Type 0
Ordinary size (submitted ids now req) = ⊥
Ordinary size {s} (polled owner_of new_id worker now a e) = lookup new_id s.tasks ≡ none
Ordinary size (started task_id now e) = Unit
Ordinary size {s} (renewed task_id req r small e) =
    (t : Task) → lookup task_id s.tasks ≡ some t → Honest size req t
Ordinary size (settled task_id req now) = Unit
Ordinary size (rebalanced worker now) = Unit
Ordinary size (drained now n out e) = Unit

pub data Run (size : String → String → ℕ) (s : Scheduler) : Scheduler → Type 0 where
  stop : Run size s s
  go : {t u : Scheduler} → Run size s t → (st : Step t u) → Ordinary size st → Run size s u

module _ (size : String → String → ℕ) (job_id shard : String) (i : ℕ) where
  Step-Keeps :
      {s t : Scheduler}
      → i < size job_id shard
      → WellFormed s
      → (st : Step s t) → Ordinary size st
      → Keeps job_id shard i s t
  Step-Keeps small v (submitted ids now req) o = absurd o
  Step-Keeps {s} small v (polled owner_of new_id worker now a e) o =
      IfSome-some (λ r. Keeps job_id shard i s r.1) _ _
        (poll_tasks-Keeps job_id shard i owner_of new_id worker now s v o) e
  Step-Keeps {s} small v (started task_id now e) o =
      IfSome-some (Keeps job_id shard i s) _ _ (start_task-Keeps job_id shard i task_id now s) e
  Step-Keeps {s} small v (renewed task_id req r fits e) o =
      IfSome-some (λ q. Keeps job_id shard i s q.1) _ _
        (renew_lease-Keeps job_id shard i size task_id req s small o) e
  Step-Keeps {s} small v (settled task_id req now) o =
      finish_report-Keeps job_id shard i task_id req now s
  Step-Keeps {s} small v (rebalanced worker now) o =
      rebalance_worker-Keeps job_id shard i worker now s
  Step-Keeps {s} small v (drained now n out e) o =
      IfSome-some (λ q. Keeps job_id shard i s q.1) _ _ (drain_pending-Keeps job_id shard i now n s)
        e

  Run-Reach : {s t : Scheduler} → Run size s t → Reach s t
  Run-Reach stop = here
  Run-Reach (go r st o) = next (Run-Reach r) st

  -- Take any run of polls, steals, starts, renewals, reports, rebalances and drains from a state that
  -- satisfies the invariant, in which stolen tasks get new ids, reported shard sizes are the true
  -- ones and offsets fit an int64. Every item of a shard is owned by as many tasks at the end as at
  -- the start.
  pub Run-owners :
      {s t : Scheduler}
      → i < size job_id shard
      → WellFormed s
      → Run size s t
      → owners job_id shard i t.tasks ≡ owners job_id shard i s.tasks
  Run-owners small v stop = refl
  Run-owners small v (go r st o) =
      Step-Keeps small (Reach-WellFormed v (Run-Reach r)) st o ∙ Run-owners small v r
