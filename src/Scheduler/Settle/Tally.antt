-- ===== src/Scheduler/Settle/Tally.antt =====
-- When updateJob settles a job.
use distributed_image_proces.Scheduler.Job.{Job, Task, is_done, JobStatus, is_failed}
use distributed_image_proces.Scheduler.Settle.{
  update_job, count_tasks, settled_job, count_one, Scheduler, Counts, no_counts,
}
use distributed_image_proces.Prelude.{
  ℕ, ◌+◌, ◌<◌, String, ◌≡◌, refl, ap, ◌∙◌, inl, inr, ite, if_pos, Bool, true, false, not, ◌&&◌,
  some, List, [], ◌∷◌, arith, Option-cases, string_discrete, count_if, lookup, lookup-insert,
}

pub update_job-tasks :
    (id : String) (now : ℕ) (s : Scheduler) → (update_job id now s).tasks ≡ s.tasks
unfolding update_job
update_job-tasks id now s = elim (Option-cases (lookup id s.jobs)) [
  | inl e ↦ rw (e, update_job)
  | inr (j, e) ↦ rw (e, update_job)
]

-- The tests that updateJob's counters stand for.
abbrev pub in_job : String → Task → Bool
in_job job_id t = ite (string_discrete t.job_id job_id) true false

abbrev pub count_by : (Task → Bool) → String → List (String × Task) → ℕ
count_by p job_id tasks = count_if (λ e. in_job job_id e.1 && p e.1) tasks

abbrev pub unsettled : Task → Bool
unsettled t = not (is_done t.status) && not (is_failed t.status)

count_one_lem :
    (job_id k : String) (t : Task) (c : Counts)
    → let d = count_one job_id t c in
      (d.done ≡ c.done + count_by (λ u. is_done u.status) job_id ((k, t) ∷ []))
      × (d.failed ≡ c.failed + count_by (λ u. is_failed u.status) job_id ((k, t) ∷ []))
      × (d.pending ≡ c.pending + count_by unsettled job_id ((k, t) ∷ []))
unfolding count_one
count_one_lem job_id k t c = ground arith

count_tasks_lem :
    (job_id : String) (m : List (String × Task)) (c : Counts)
    → let d = count_tasks job_id m c in
      (d.done ≡ c.done + count_by (λ u. is_done u.status) job_id m)
      × (d.failed ≡ c.failed + count_by (λ u. is_failed u.status) job_id m)
      × (d.pending ≡ c.pending + count_by unsettled job_id m)
unfolding count_tasks
count_tasks_lem job_id [] c = omega arith
count_tasks_lem job_id ((k, t) ∷ m) c =
    let one = count_one_lem job_id k t c in
    let rest = count_tasks_lem job_id m (count_one job_id t c) in
    (omega arith, omega arith, omega arith)

-- What updateJob leaves of a job: the numbers of done and failed tasks, and the end of the job.
pub record Settled (now d f p : ℕ) (j j' : Job) : Type 0 where
  pub done_tasks : j'.done_tasks ≡ d
  pub failed_tasks : j'.failed_tasks ≡ f
  pub running : 0 < p → (j'.status ≡ j.status) × (j'.finished_at ≡ j.finished_at)
  pub completed : p ≡ 0 → f ≡ 0 → (j'.status ≡ JobStatus.completed) × (j'.finished_at ≡ some now)
  pub failed : p ≡ 0 → 0 < f → (j'.status ≡ JobStatus.failed) × (j'.error ≡ some f)

settled_job-Settled :
    (now : ℕ) (c : Counts) (j : Job) → Settled now c.done c.failed c.pending j (settled_job now c j)
unfolding settled_job
settled_job-Settled now c j = ground arith

-- updateJob records in the job how many of its tasks are done and how many failed; while some task
-- is neither, the job keeps its status; then it is completed if no task failed and failed otherwise.
pub update_job-Settled :
    (job_id : String) (now : ℕ) (s : Scheduler) (j : Job)
    → lookup job_id s.jobs ≡ some j
    → (j' : Job) × (lookup job_id (update_job job_id now s).jobs ≡ some j')
      × Settled now
          (count_by (λ u. is_done u.status) job_id s.tasks)
          (count_by (λ u. is_failed u.status) job_id s.tasks)
          (count_by unsettled job_id s.tasks)
          j
          j'
unfolding update_job
update_job-Settled job_id now s j e =
    let c = count_tasks job_id s.tasks no_counts in
    let j' = settled_job now c j in
    let (a, b, p) = count_tasks_lem job_id s.tasks no_counts in
    (
      j',
      rw (e, update_job)
          (lookup-insert job_id job_id j' s.jobs
            ∙ if_pos (string_discrete job_id job_id) refl (some j') (lookup job_id s.jobs)),
      (let r = settled_job-Settled now c j in
          record {
            done_tasks = omega arith;
            failed_tasks = omega arith;
            running = λ h. r.running (omega arith);
            completed = λ h k. r.completed (omega arith) (omega arith);
            failed = λ h k.
                let q = r.failed (omega arith) (omega arith) in
                let same : c.failed ≡ count_by (λ u. is_failed u.status) job_id s.tasks =
                  omega arith in
                (q.0, q.1 ∙ ap some same);
          }),
    )
