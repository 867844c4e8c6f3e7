-- ===== src/Scheduler/Steal/Tiling.antt =====
-- The owners of an item through a steal.
use distributed_image_proces.Prelude.{
  ℕ, ◌+◌, ◌≤◌, ◌≡◌, String, Bool, true, false, ◌&&◌, none, some, List, lookup, insert, Distinct,
  AllEntries, AllEntries-lookup, sum_map, sum_map-insert, lookup-insert, string_discrete, ite, leb,
  ltb, ℤ, pos, negsuc, if◌then◌else◌, arith,
}
use distributed_image_proces.Scheduler.Job.{Task}
use distributed_image_proces.Scheduler.State.{Scheduler}
use distributed_image_proces.Scheduler.Steal.{stolen_task, shrink, split_victim, steal}
use distributed_image_proces.Scheduler.Steal.Victim.{Stolen, steal-Stolen}
use distributed_image_proces.Scheduler.Lease.Bounds.{LeaseOrdered}

-- Item `i` lies in the range that a task owns.
abbrev pub below_end : ℕ → ℤ → Bool
below_end i (pos e) = ltb i e
below_end i (negsuc _) = true

-- The task covers item `i` of the shard of the job.
unfoldable pub covers : String → String → ℕ → Task → Bool
covers job_id shard i t =
    ite (string_discrete t.job_id job_id)
      (ite (string_discrete t.shard shard) (leb t.range_start i && below_end i t.range_end) false)
      false

abbrev pub owned : String → String → ℕ → Task → ℕ
owned job_id shard i t = if covers job_id shard i t then 1 else 0

-- How many tasks own item `i` of the shard of the job.
unfoldable pub owners : String → String → ℕ → List (String × Task) → ℕ
owners job_id shard i tasks = sum_map (owned job_id shard i) tasks

-- The two parts of a split range own what the range owned.
owned-split :
    (job_id shard : String) (i : ℕ) (new_id : String) (v : Task) (split e : ℕ)
    → v.range_end ≡ pos e
    → v.range_start ≤ split
    → split ≤ e
    → owned job_id shard i (stolen_task new_id split v) + owned job_id shard i (shrink split v)
      ≡ owned job_id shard i v
unfolding covers stolen_task shrink
owned-split job_id shard i new_id v split e known a b = ground arith

owners-split :
    (job_id shard : String) (i : ℕ) (new_id k : String) (u v w : Task)
    (tasks : List (String × Task))
    → lookup k tasks ≡ some v
    → lookup new_id tasks ≡ none
    → owned job_id shard i u + owned job_id shard i w ≡ owned job_id shard i v
    → owners job_id shard i (insert new_id u (insert k w tasks)) ≡ owners job_id shard i tasks
unfolding owners
owners-split job_id shard i new_id k u v w tasks at fresh same = ground (
  arith,
  sum_map-insert (owned job_id shard i) new_id u (insert k w tasks),
  sum_map-insert (owned job_id shard i) k w tasks,
  lookup-insert new_id k w tasks,
)

-- A steal that succeeds leaves every item of every shard with as many owners as before: no item is
-- lost, and none gets a second owner. The new id is one that no task has.
pub owners-steal :
    (new_id : String) (s : Scheduler) {r : Task × Scheduler}
    → Distinct s.tasks
    → AllEntries (λ _ t. LeaseOrdered t) s.tasks
    → lookup new_id s.tasks ≡ none
    → steal new_id s ≡ some r
    → (job_id shard : String) (i : ℕ)
    → owners job_id shard i r.1.tasks ≡ owners job_id shard i s.tasks
unfolding split_victim
owners-steal new_id s {r} d ordered fresh h job_id shard i =
    let t : Stolen new_id s r = steal-Stolen new_id s d h in
    let o : LeaseOrdered t.victim =
      AllEntries-lookup (λ _ t. LeaseOrdered t) t.key t.victim s.tasks ordered t.present in
    rw t.result (
      owners-split job_id shard i new_id t.key (stolen_task new_id t.split t.victim) t.victim
        (shrink t.split t.victim) s.tasks t.present fresh
        (owned-split job_id shard i new_id t.victim t.split t.end t.known (omega arith)
          (omega arith)))
