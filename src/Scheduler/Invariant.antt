-- ===== src/Scheduler/Invariant.antt =====
-- The invariant of the Scheduler: the keys of its maps, a job for every task, and the order LeaseOrdered
-- of each lease. This is weaker than the order that job.go documents, which bounds every grant by a known
-- end.
pub mod Updates
pub mod Methods
pub mod Settling
pub mod Reporting
use distributed_image_proces.Prelude.{
  ℕ, ◌≡◌, ◌≢◌, ◌<◌, String, Option, none, some, List, [], ◌∷◌, lookup, insert, Distinct, AllEntries,
  insert-Distinct, insert-AllEntries, AllEntries-mono, lookup-insert, Option-cases, inl, inr, arith,
}
use distributed_image_proces.Scheduler.Job.{Job, Task}
use distributed_image_proces.Scheduler.State.{Scheduler, persist}
use distributed_image_proces.Scheduler.Lease.Bounds.{LeaseOrdered}

pub record TaskOk (jobs : List (String × Job)) (k : String) (t : Task) : Type 0 where
  pub id_key : t.id ≡ k
  pub ordered : LeaseOrdered t
  pub job_known : lookup t.job_id jobs ≢ none

pub record Valid (chunk : ℕ) (jobs : List (String × Job)) (tasks : List (String × Task))
    : Type 0 where
  pub chunk_pos : 0 < chunk
  pub distinct : Distinct tasks
  pub entries : AllEntries (TaskOk jobs) tasks
  pub jobs_distinct : Distinct jobs
  pub jobs_keyed : AllEntries (λ k j. j.id ≡ k) jobs

abbrev pub WellFormed : Scheduler → Type 0
WellFormed s = Valid s.lease_chunk s.jobs s.tasks

-- Writing a sound task keeps the maps valid.
pub insert-Valid :
    {chunk : ℕ} {jobs : List (String × Job)} {tasks : List (String × Task)} (k : String) (t : Task)
    → Valid chunk jobs tasks
    → TaskOk jobs k t
    → Valid chunk jobs (insert k t tasks)
insert-Valid {jobs} {tasks} k t v ok = record {
  chunk_pos = v.chunk_pos;
  distinct = insert-Distinct k t tasks v.distinct;
  entries = insert-AllEntries (TaskOk jobs) k t tasks ok v.entries;
  jobs_distinct = v.jobs_distinct;
  jobs_keyed = v.jobs_keyed;
}

insert_known :
    (i k : String) (j : Job) (jobs : List (String × Job))
    → lookup i jobs ≢ none
    → lookup i (insert k j jobs) ≢ none
insert_known i k j jobs h = ground (arith, lookup-insert i k j jobs)

-- Writing a job keeps them valid too.
pub insert_job-Valid :
    {chunk : ℕ} {jobs : List (String × Job)} {tasks : List (String × Task)} (k : String) (j : Job)
    → Valid chunk jobs tasks
    → j.id ≡ k
    → Valid chunk (insert k j jobs) tasks
insert_job-Valid {jobs} {tasks} k j v named = record {
  jobs_distinct = insert-Distinct k j jobs v.jobs_distinct;
  jobs_keyed = insert-AllEntries (λ i j. j.id ≡ i) k j jobs named v.jobs_keyed;
  chunk_pos = v.chunk_pos;
  distinct = v.distinct;
  entries =
      AllEntries-mono (TaskOk jobs) (TaskOk (insert k j jobs)) tasks
        (λ i t ok. record {
          id_key = ok.id_key;
          ordered = ok.ordered;
          job_known = insert_known t.job_id k j jobs ok.job_known;
        })
        v.entries;
}

pub persist-WellFormed : (s : Scheduler) → WellFormed s → WellFormed (persist s)
unfolding persist
persist-WellFormed s v = elim (Option-cases s.store) [
  | inl e ↦ rw (e, persist) v
  | inr (log, e) ↦ rw (e, persist) v
]
