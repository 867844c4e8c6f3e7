-- ===== src/Scheduler/Report/Terminal.antt =====
-- The branches of ReportResult.
use distributed_image_proces.Scheduler.Report.{
  accepted, commit_failed, decision_failed, effect_failed, unknown, already_done, claimed,
}
use distributed_image_proces.Scheduler.Settle.Tally.{update_job-tasks}
use distributed_image_proces.Scheduler.State.Keys.{persist-tasks, persist-pending_q}
use distributed_image_proces.Scheduler.Lease.{reset_lease}
use distributed_image_proces.Scheduler.Report.{
  report_result, finish_report, Answer, Services, ResultRequest, report_success, report_failure,
  Scheduler, requeued, Task, is_done, Begun, accepted, is_empty, unknown, TaskStatus, begin_report,
  already_done, Claimed, claimed, outside,
}
use distributed_image_proces.Prelude.{
  ℕ, ◌+◌, ◌<◌, String, ◌≡◌, refl, ◌∙◌, ◌≢◌, ◌⊎◌, inl, inr, ite, if_pos, true, false, not, some, [],
  ◌∷◌, ◌++◌, arith, ltb, Bool-cases, Option-cases, string_discrete, lookup, insert, lookup-insert,
}

-- A report on a task that is already done is accepted, changes nothing, and calls no service.
pub report_result_done :
    {E : Type 0} (v : Services E) (task_id : String) (req : ResultRequest) (now : ℕ) (s : Scheduler)
    (e : E) (t : Task)
    → lookup task_id s.tasks ≡ some t
    → is_done t.status ≡ true
    → (report_result v task_id req now s e ≡ (accepted, s, e))
      × (finish_report task_id req now s ≡ (accepted, s))
unfolding report_result
report_result_done v task_id req now s e t h d =
    (rw (h, report_result) (rw d), rw (h, finish_report) (rw d))

-- The answers of the phases without the lock.
abbrev pub IsServiceError : Answer → Type 0
IsServiceError commit_failed = Unit
IsServiceError decision_failed = Unit
IsServiceError effect_failed = Unit
IsServiceError _ = ⊥

finish_report-answer :
    (task_id : String) (req : ResultRequest) (now : ℕ) (s : Scheduler)
    → ¬ IsServiceError (finish_report task_id req now s).0
unfolding finish_report
finish_report-answer task_id req now s h = elim (Option-cases (lookup task_id s.tasks)) [
  | inl e ↦ rw (e, finish_report) at h
  | inr (t, e) ↦ elim (Bool-cases (is_done t.status)) [
    | inl d ↦ rw (e, d, finish_report) at h
    | inr d ↦ elim (Bool-cases (not (is_empty req.error))) [
      | inl f ↦ rw (e, d, f, finish_report) at h
      | inr f ↦ rw (e, d, f, finish_report) at h
    ]
  ]
]

-- When the commit, the decision or the side effect fails, ReportResult leaves the scheduler as it
-- was, so that the task can be reported again.
pub report_result_service_error :
    {E : Type 0} (v : Services E) (task_id : String) (req : ResultRequest) (now : ℕ) (s : Scheduler)
    (e : E)
    → IsServiceError (report_result v task_id req now s e).0
    → (report_result v task_id req now s e).1 ≡ s
unfolding report_result
report_result_service_error v task_id req now s e h = elim (begin-cases (begin_report task_id s)) [
  | inl b ↦ rw (b, report_result)
  | inr (inl b) ↦ rw (b, report_result)
  | inr (inr (c, b)) ↦ elim (Option-cases (outside v task_id req c e).0) [
    | inr (answer, o) ↦ rw (b, report_result) (rw o)
    | inl o ↦ absurd (finish_report-answer task_id req now s (rw (b, o, report_result) at h))
  ]
]
  where
    begin-cases :
        (b : Begun) → (b ≡ unknown) ⊎ (b ≡ already_done) ⊎ ((c : Claimed) × (b ≡ claimed c))
    begin-cases unknown = inl refl
    begin-cases already_done = inr (inl refl)
    begin-cases (claimed c) = inr (inr (c, refl))

-- Phase 4 on a task that is not done, without an error: the task is done, finished now, and credited
-- to the worker; every other task is as before.
pub finish_report_success :
    (task_id : String) (req : ResultRequest) (now : ℕ) (s : Scheduler) (t : Task) (k : String)
    → lookup task_id s.tasks ≡ some t
    → is_done t.status ≡ false
    → req.error ≡ ""
    → lookup k (finish_report task_id req now s).1.tasks
      ≡ ite
          (string_discrete k task_id)
          (some (record t {
            finished_at = some now;
            worker_id = req.worker_id;
            status = TaskStatus.done;
          }))
          (lookup k s.tasks)
unfolding finish_report report_success
finish_report_success task_id req now s t k h d e =
    let ok : not (is_empty req.error) ≡ false = ground arith in
    let u = record t {
      finished_at = some now;
      worker_id = req.worker_id;
      status = TaskStatus.done;
    } in
    rw (h, finish_report)
      (rw (d, ok)
        (rw (persist-tasks (report_success task_id req now t s)) (
          rw (update_job-tasks t.job_id now (record s { tasks = insert task_id u s.tasks }))
            (lookup-insert k task_id u s.tasks))))

-- Phase 4 on a task that is not done, with an error, below the retry limit: the task is pending again
-- with one more retry, no worker and its lease back at the start of its range, and its id is at the
-- end of the queue.
pub finish_report_retry :
    (task_id : String) (req : ResultRequest) (now : ℕ) (s : Scheduler) (t : Task)
    → lookup task_id s.tasks ≡ some t
    → is_done t.status ≡ false
    → req.error ≢ ""
    → t.retries < t.max_retries
    → let s' = (finish_report task_id req now s).1 in
      (u : Task) × (lookup task_id s'.tasks ≡ some u)
      × (u.status ≡ TaskStatus.pending)
      × (u.retries ≡ t.retries + 1)
      × (u.worker_id ≡ "")
      × (u.granted ≡ t.range_start)
      × (u.frontier ≡ t.range_start)
      × (u.range_end ≡ t.range_end)
      × (s'.pending_q ≡ s.pending_q ++ t.id ∷ [])
unfolding finish_report report_failure reset_lease
finish_report_retry task_id req now s t h d e below =
    let bad : not (is_empty req.error) ≡ true = ground arith in
    let more : ltb t.retries t.max_retries ≡ true = ground arith in
    let u =
      requeued
        (record t { finished_at = some now; worker_id = req.worker_id; error = req.error }) in
    let s' = record s { tasks = insert task_id u s.tasks; pending_q = s.pending_q ++ t.id ∷ [] } in
    (
      u,
      rw (h, finish_report)
          (rw (d, bad, more)
            (rw (persist-tasks s') (
              lookup-insert task_id task_id u s.tasks
              ∙ if_pos (string_discrete task_id task_id) refl (some u) (lookup task_id s.tasks)))),
      refl,
      refl,
      refl,
      refl,
      refl,
      refl,
      rw (h, finish_report) (rw (d, bad, more) (persist-pending_q s')),
    )
