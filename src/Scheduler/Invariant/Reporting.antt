-- ===== src/Scheduler/Invariant/Reporting.antt =====
-- The invariant through the last phase of ReportResult.
use distributed_image_proces.Prelude.{
  ℕ, refl, String, not, some, lookup, insert, Option-cases, Bool-cases, inl, inr, ltb, arith,
}
use distributed_image_proces.Scheduler.Job.{Task, TaskStatus, ResultRequest, is_done}
use distributed_image_proces.Scheduler.State.{Scheduler}
use distributed_image_proces.Scheduler.Settle.{requeued}
use distributed_image_proces.Scheduler.Report.{
  report_failure, report_success, finish_report, is_empty,
}
use distributed_image_proces.Scheduler.Invariant.{
  TaskOk, WellFormed, insert-Valid, persist-WellFormed,
}
use distributed_image_proces.Scheduler.Invariant.Updates.{same-TaskOk, requeued-TaskOk}
use distributed_image_proces.Scheduler.Invariant.Methods.{task_ok, update_job-WellFormed}

module _ (task_id : String) (req : ResultRequest) (now : ℕ) (t : Task) (s : Scheduler) where
  report_failure-WellFormed :
      WellFormed s → TaskOk s.jobs task_id t → WellFormed (report_failure task_id req now t s)
  unfolding report_failure
  report_failure-WellFormed v ok =
      let u = record t { finished_at = some now; worker_id = req.worker_id; error = req.error } in
      let ok_u : TaskOk s.jobs task_id u =
        same-TaskOk t u refl refl (let o = ok.ordered in ground arith) ok in
      elim (Bool-cases (ltb t.retries t.max_retries)) [
        | inl r ↦ rw r (insert-Valid task_id (requeued u) v (requeued-TaskOk u ok_u))
        | inr r ↦ rw r (
            update_job-WellFormed t.job_id now
              (record s {
                tasks = insert task_id (record u { status = TaskStatus.failed }) s.tasks;
              })
              (insert-Valid task_id _ v
                (same-TaskOk t _ refl refl (let o = ok.ordered in ground arith) ok)))
      ]

  report_success-WellFormed :
      WellFormed s → TaskOk s.jobs task_id t → WellFormed (report_success task_id req now t s)
  unfolding report_success
  report_success-WellFormed v ok =
      let u = record t {
        finished_at = some now;
        worker_id = req.worker_id;
        status = TaskStatus.done;
      } in
      update_job-WellFormed t.job_id now (record s { tasks = insert task_id u s.tasks })
        (insert-Valid task_id u v
          (same-TaskOk t u refl refl (let o = ok.ordered in ground arith) ok))

-- Phase 4 of ReportResult keeps the invariant on every branch.
pub finish_report-WellFormed :
    (task_id : String) (req : ResultRequest) (now : ℕ) (s : Scheduler)
    → WellFormed s
    → WellFormed (finish_report task_id req now s).1
unfolding finish_report
finish_report-WellFormed task_id req now s v = elim (Option-cases (lookup task_id s.tasks)) [
  | inl e ↦ rw (e, finish_report) v
  | inr (t, e) ↦ elim (Bool-cases (is_done t.status)) [
    | inl d ↦ rw (e, finish_report) (rw d v)
    | inr d ↦ elim (Bool-cases (not (is_empty req.error))) [
      | inl f ↦
          rw (e, finish_report)
            (rw (d, f)
              (persist-WellFormed _
                (report_failure-WellFormed task_id req now t s v (task_ok s task_id t v e))))
      | inr f ↦
          rw (e, finish_report)
            (rw (d, f)
              (persist-WellFormed _
                (report_success-WellFormed task_id req now t s v (task_ok s task_id t v e))))
    ]
  ]
]
