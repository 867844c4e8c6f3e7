-- ===== src/Scheduler/Tests.antt =====
-- Concrete states and calls of the scheduler, and its theorems at them.
use distributed_image_proces.Scheduler.Drain.{drain_pending}
use distributed_image_proces.Scheduler.Settle.Tally.{
  Settled, count_by, unsettled, update_job-Settled,
}
use distributed_image_proces.Scheduler.Steps.{Reach-WellFormed, next, settled, here, rebalanced}
use distributed_image_proces.Scheduler.Steps.Partition.{Run-owners, go, stop}
use distributed_image_proces.Scheduler.Settle.{
  rebalance_worker, update_job, renew_lease, start_task,
}
use distributed_image_proces.Scheduler.Lease.{renew}
use distributed_image_proces.Scheduler.Lease.Progress.{MovedOn, renew-MovedOn}
use distributed_image_proces.Scheduler.Steal.Victim.{Stolen, steal-Stolen}
use distributed_image_proces.Scheduler.Dispatch.Poll.{Chosen, poll_tasks_total, choose-Chosen}
use distributed_image_proces.Scheduler.Lease.Bounds.{LeaseOrdered}
use distributed_image_proces.Scheduler.Steal.Tiling.{owners, covers}
use distributed_image_proces.Scheduler.Steal.{steal}
use distributed_image_proces.Scheduler.Invariant.{WellFormed}
use distributed_image_proces.Scheduler.Dispatch.{Polled, poll_tasks, submit, choose}
use distributed_image_proces.Scheduler.Job.{
  Task, ResultRequest, RenewLeaseRequest, Job, SubmitJobRequest, JobStatus, TaskStatus, is_done,
  is_failed,
}
use distributed_image_proces.Scheduler.State.{snapshot, persist, restore, Scheduler}
use distributed_image_proces.Scheduler.Report.{Services, report_result, finish_report}
use distributed_image_proces.Prelude.{
  ℕ, zero, suc, ◌+◌, String, ◌≡◌, refl, true, false, none, some, [], ◌∷◌, arith, string_discrete,
  lookup, insert, pos, negsuc,
}

abbrev job : Job
job = record {
  id = "j";
  dataset = "train";
  algorithm = "resnet";
  config = [];
  priority = pos 2;
  status = JobStatus.running;
  shards = "ff" ∷ [];
  total_tasks = 1;
  done_tasks = 0;
  failed_tasks = 0;
  created_at = 5;
  started_at = some 5;
  finished_at = none;
  error = none;
}

-- A running task of ten items, two of which are granted.
abbrev busy : Task
busy = record {
  id = "a";
  job_id = "j";
  shard = "ff";
  worker_id = "w1";
  status = TaskStatus.running;
  priority = pos 2;
  retries = 0;
  max_retries = 3;
  assigned_at = some 6;
  started_at = some 7;
  finished_at = none;
  error = "";
  range_start = 0;
  range_end = pos 10;
  frontier = 1;
  granted = 2;
  generation = 0;
  split = false;
}

abbrev queued : Task
queued = record busy {
  id = "b";
  worker_id = "";
  status = TaskStatus.pending;
  range_end = negsuc 0;
  frontier = 0;
  granted = 0;
}

abbrev one : Scheduler
one = record {
  jobs = ("j", job) ∷ [];
  tasks = ("a", busy) ∷ [];
  pending_q = [];
  max_retries = 3;
  lease_chunk = 4;
  store = some [];
  on_job_done = some [];
}

abbrev two : Scheduler
two = record one { tasks = ("a", busy) ∷ ("b", queued) ∷ []; pending_q = "b" ∷ [] }

busy-LeaseOrdered : LeaseOrdered busy
busy-LeaseOrdered = omega arith

one-WellFormed : WellFormed one
unfolding lookup string_discrete
one-WellFormed = record {
  chunk_pos = omega arith;
  distinct = (refl, tt);
  entries = (record { id_key = refl; ordered = busy-LeaseOrdered; job_known = λ e. cc e }, tt);
  jobs_distinct = (refl, tt);
  jobs_keyed = (refl, tt);
}

two-WellFormed : WellFormed two
unfolding lookup string_discrete
two-WellFormed = record {
  chunk_pos = omega arith;
  distinct = (refl, (refl, tt));
  entries = (
    record { id_key = refl; ordered = busy-LeaseOrdered; job_known = λ e. cc e },
    (record { id_key = refl; ordered = omega arith; job_known = λ e. cc e }, tt),
  );
  jobs_distinct = (refl, tt);
  jobs_keyed = (refl, tt);
}

abbrev report : ResultRequest
report = record { worker_id = "w1"; output_key = "staging/j/a.parquet"; error = "" }

abbrev failure : ResultRequest
failure = record report { error = "boom" }

abbrev progress : RenewLeaseRequest
progress = record { worker_id = "w1"; generation = pos 0; frontier = pos 2; total = pos 10 }

abbrev size : String → String → ℕ
size job_id shard = 10

-- A service whose copy always fails; its world counts the calls.
abbrev broken : Services ℕ
broken = record {
  committer = some (λ staging key e. (false, e + 1));
  decider = none;
  side_effect = none;
  key_hash = λ key. "0";
}

program : Unit {0}
unfolding poll_tasks steal submit renew_lease finish_report report_result rebalance_worker
    start_task drain_pending lookup insert string_discrete persist snapshot covers owners restore
    choose
program = tt

Run-owners_example :
    owners "j" "ff" 7 (finish_report "a" report 20 one).1.tasks ≡ owners "j" "ff" 7 one.tasks
Run-owners_example =
    Run-owners size "j" "ff" 7 (omega arith) one-WellFormed (go stop (settled "a" report 20) tt)

Reach-WellFormed_example : WellFormed (rebalance_worker "w1" 9 one)
Reach-WellFormed_example = Reach-WellFormed one-WellFormed (next here (rebalanced "w1" 9))

abbrev stolen : Task
stolen = record busy {
  id = "c";
  worker_id = "";
  status = TaskStatus.pending;
  priority = pos 0;
  assigned_at = none;
  started_at = none;
  range_start = 6;
  frontier = 6;
  granted = 6;
  split = true;
}

abbrev after_steal : Scheduler
after_steal = record one {
  jobs = ("j", record job { total_tasks = 2 }) ∷ [];
  tasks =
      ("a", record busy { range_end = pos 6; generation = 1; split = true }) ∷ ("c", stolen) ∷ [];
}

steals : steal "c" one ≡ some (stolen, after_steal)
unfolding program
steals = refl

steal-Stolen_example : Stolen "c" one (stolen, after_steal)
unfolding program
steal-Stolen_example = steal-Stolen "c" one (refl, tt) steals

renew-MovedOn_example : MovedOn 10 busy (renew 4 progress busy)
renew-MovedOn_example = renew-MovedOn 4 progress busy 10 busy-LeaseOrdered refl (omega arith)

poll_tasks_total_example : (r : Polled) × (poll_tasks (λ k. "") "c" "w2" 9 two ≡ some r)
poll_tasks_total_example = poll_tasks_total (λ k. "") "c" "w2" 9 two two-WellFormed

choose-Chosen_example :
    Chosen
      (λ k. "")
      "w2"
      two.tasks
      two.pending_q
      (choose (λ k. "") "w2" two.tasks 0 none two.pending_q)
choose-Chosen_example = choose-Chosen (λ k. "") "w2" two.tasks two.pending_q

abbrev ids : ℕ → String
ids zero = ""
ids (suc n) = String.◌∷◌ "x" (ids n)

abbrev request : SubmitJobRequest
request = record {
  dataset = "train";
  algorithm = "resnet";
  config = [];
  shards = "00" ∷ "ff" ∷ [];
  priority = pos 1;
}

update_job-Settled_example :
    (j' : Job) × (lookup "j" (update_job "j" 9 one).jobs ≡ some j')
    × Settled 9
        (count_by (λ u. is_done u.status) "j" one.tasks)
        (count_by (λ u. is_failed u.status) "j" one.tasks)
        (count_by unsettled "j" one.tasks)
        job
        j'
unfolding lookup string_discrete
update_job-Settled_example = update_job-Settled "j" 9 one job refl
