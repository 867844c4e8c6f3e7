-- ===== src/Scheduler/Steal.antt =====
-- stealLocked in internal/scheduler/scheduler.go.
pub mod Victim
pub mod Tiling
use distributed_image_proces.Prelude.{
  ℕ, ◌+◌, ◌-◌, ◌/◌, String, Bool, true, false, ◌&&◌, ◌||◌, not, Option, none, some, List, [], ◌∷◌,
  insert, lookup, ltb, leb, ℤ, pos, is_neg, pos_part, if◌then◌else◌,
}
use distributed_image_proces.Scheduler.Job.{Job, Task, TaskStatus, in_flight}
use distributed_image_proces.Scheduler.State.{Scheduler}

abbrev pub min_steal_items : ℕ
min_steal_items = 2

-- The two `continue` guards of the loop.
unfoldable pub stealable : Task → Bool
stealable t = in_flight t.status && not (is_neg t.range_end)

-- `t.RangeEnd - t.Granted`; where the source's difference is negative, this one is 0, and neither
-- exceeds a best tail.
unfoldable pub tail_of : Task → ℕ
tail_of t = pos_part t.range_end - t.granted

-- The victim so far, with its key, and its tail (`bestTail`).
pub record Best : Type 0 where
  pub victim : Option (String × Task)
  pub tail : ℕ

unfoldable pub no_victim : Best
no_victim = record { victim = none; tail = 0 }

unfoldable pub better : String → Task → Best → Best
unfolding stealable tail_of
better k t best =
    if stealable t && ltb best.tail (tail_of t)
    then record { victim = some (k, t); tail = tail_of t }
    else best

-- The loop over s.tasks.
unfoldable pub find_victim : List (String × Task) → Best → Best
unfolding better
find_victim [] best = best
find_victim ((k, t) ∷ m) best = find_victim m (better k t best)

unfoldable pub stolen_task : String → ℕ → Task → Task
stolen_task new_id split victim = record {
  id = new_id;
  job_id = victim.job_id;
  shard = victim.shard;
  worker_id = "";
  status = TaskStatus.pending;
  priority = pos 0;
  retries = 0;
  max_retries = victim.max_retries;
  assigned_at = none;
  started_at = none;
  finished_at = none;
  error = "";
  range_start = split;
  range_end = victim.range_end;
  frontier = split;
  granted = split;
  generation = 0;
  split = true;
}

unfoldable pub shrink : ℕ → Task → Task
shrink split victim = record victim {
  range_end = pos split;
  generation = victim.generation + 1;
  split = true;
}

-- `j.TotalTasks++` of the victim's job, if it is there.
unfoldable pub count_task : String → List (String × Job) → List (String × Job)
count_task job_id jobs = elim (lookup job_id jobs) [
  | none ↦ jobs
  | some j ↦ insert job_id (record j { total_tasks = j.total_tasks + 1 }) jobs
]

unfoldable pub split_point : Task → ℕ → ℕ
split_point victim tail = victim.granted + tail / 2

-- What stealLocked does to the victim under key `k` once the tail is worth splitting.
unfoldable pub split_victim : String → String → Task → ℕ → Scheduler → Task × Scheduler
unfolding stolen_task shrink count_task
split_victim new_id k victim split s =
    let stolen = stolen_task new_id split victim in
    (
      stolen,
      record s {
        tasks = insert new_id stolen (insert k (shrink split victim) s.tasks);
        jobs = count_task victim.job_id s.jobs;
      },
    )

-- The guards after the loop.
unfoldable pub splittable : Task → ℕ → Bool
unfolding split_point
splittable victim tail =
    let split = split_point victim tail in
    not (ltb tail min_steal_items)
    && not (leb split victim.granted || leb (pos_part victim.range_end) split)

unfoldable pub steal_from : String → Best → Scheduler → Option (Task × Scheduler)
unfolding splittable split_victim split_point
steal_from new_id best s = elim best.victim [
  | none ↦ none
  | some (k, victim) ↦
      if splittable victim best.tail
      then some (split_victim new_id k victim (split_point victim best.tail) s)
      else none
]

-- stealLocked: the stolen task and the new state, or `none`.
unfoldable pub steal : String → Scheduler → Option (Task × Scheduler)
unfolding find_victim no_victim steal_from
steal new_id s = steal_from new_id (find_victim s.tasks no_victim) s
