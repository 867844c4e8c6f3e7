-- ===== src/Worker/Tests.antt =====
-- A worker on a shard of three objects, and the theorems at it.
use distributed_image_proces.Prelude.{
  ℕ, suc, ◌+◌, ◌≤◌, String, true, false, ◌≡◌, refl, none, some, List, [], ◌∷◌, arith, negsuc,
}
use distributed_image_proces.Scheduler.Job.{TaskAssignment}
use distributed_image_proces.Worker.Sweep.{World, end_of, sweep_task, run_task}
use distributed_image_proces.Worker.Sweep.Leased.{Ended, sweep_task-Ended}
use distributed_image_proces.Worker.Sweep.Partial.{Halted, success, run_task_cut_off}

abbrev keys : List String
keys = "x" ∷ "y" ∷ "z" ∷ []

-- A coordinator that grants up to offset 2 and then no more. The world counts the posts.
abbrev granting : World ℕ ℕ
granting = record {
  list_prefix = λ dataset shard e. (some keys, e);
  get = λ key e. (some 5, e);
  put = λ key b e. (true, e);
  renew = λ req e. (some (record { generation = 0; bound = 2; stolen = true }), suc e);
  write_parquet = λ row. some row.images_processed;
  start = λ id e. e;
  result = λ id req e. (true, e);
  key_text = λ key. key.task_id;
}

-- One that cannot be reached.
abbrev unreachable : World ℕ ℕ
unreachable = record granting { renew = λ req e. (none, suc e) }

abbrev whole : TaskAssignment
whole = record {
  task_id = "t";
  job_id = "j";
  shard = "ff";
  dataset = "train";
  algorithm = "resnet";
  config = [];
  range_start = 0;
  range_end = negsuc 0;
  bound = 1;
  generation = 0;
  split = false;
}

sweep_task-Ended_example :
    Ended granting "w1" (λ b. b ≤ 2) 0 (end_of (negsuc 0) 3) (sweep_task granting "w1" whole keys 0)
sweep_task-Ended_example =
    sweep_task-Ended granting "w1" (λ b. b ≤ 2) whole keys 0 (λ req e r h. ground arith)
      (omega arith)

one_below : 1 + 1 ≤ end_of (negsuc 0) 3
unfolding end_of
one_below = omega arith

run_task_cut_off_example :
    Halted unreachable "w1" 1 (sweep_task unreachable "w1" whole keys 0)
    × ((e : ℕ) × (run_task unreachable "w1" whole 0
          ≡ some (unreachable.result "t" (success unreachable "w1" whole) e)))
run_task_cut_off_example =
    run_task_cut_off unreachable "w1" whole keys 0 (λ req e. refl)
      (record { encodes = λ row. (row.images_processed, refl); puts = λ key b e. refl }) refl
      (omega arith) one_below
