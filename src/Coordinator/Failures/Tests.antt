-- ===== src/Coordinator/Failures/Tests.antt =====
-- A worker that falls silent.
use distributed_image_proces.Prelude.{
  ℕ, zero, suc, ◌+◌, String, ◌≡◌, refl, false, none, some, List, [], ◌∷◌, arith, lookup,
  string_discrete, pos, insert,
}
use distributed_image_proces.Cluster.Membership.{
  NodeState, NodeInfo, Membership, FailureEvent, tick,
}
use distributed_image_proces.Scheduler.Job.{Task, TaskStatus}
use distributed_image_proces.Scheduler.State.{Scheduler, new}
use distributed_image_proces.Scheduler.Settle.{held_by, rebalance_worker}
use distributed_image_proces.Coordinator.Failures.{handle_events}
use distributed_image_proces.Coordinator.Failures.Freed.{tick-Free}
use distributed_image_proces.Coordinator.Failures.Dropped.{tick_full}

abbrev silent : NodeInfo ℕ
silent = record {
  id = "w1";
  address = "w1";
  state = NodeState.suspect;
  last_seen = 5;
  joined_at = 0;
  metrics = 0;
  node_name = "";
}

abbrev members : Membership ℕ
members = record {
  nodes = ("w1", silent) ∷ [];
  ring = record { vnodes = []; nodes = "w1" ∷ []; vnodes_per = 1 };
  suspect_timeout = 10;
  dead_timeout = 30;
  events = [];
}

abbrev hash_vnode : String → ℕ → ℕ
hash_vnode id i = i

abbrev task_of : String → TaskStatus → ℕ → Task
task_of worker status retries = record {
  id = "a";
  job_id = "j";
  shard = "ff";
  worker_id = worker;
  status = status;
  priority = pos 2;
  retries = retries;
  max_retries = 3;
  assigned_at = some 6;
  started_at = some 7;
  finished_at = none;
  error = "";
  range_start = 0;
  range_end = pos 10;
  frontier = 0;
  granted = 0;
  generation = 0;
  split = false;
}

abbrev leased : Scheduler
unfolding new
leased = record (new 3) { tasks = ("a", task_of "w1" TaskStatus.running 0) ∷ [] }

-- The task after the event loop.
requeues :
    lookup "a" (handle_events (λ i. 50 + i) 0 (tick hash_vnode 50 members).events leased).tasks
    ≡ some (task_of "" TaskStatus.pending 1)
unfolding handle_events tick rebalance_worker lookup insert string_discrete leased
    distributed_image_proces.Scheduler.State.persist
    distributed_image_proces.Scheduler.Lease.reset_lease
requeues = refl

tick-Free_example : held_by "w1" (task_of "" TaskStatus.pending 1) ≡ false
unfolding lookup string_discrete
tick-Free_example =
    tick-Free hash_vnode 50 "w1" silent members (λ i. 50 + i) leased "a"
      (task_of "" TaskStatus.pending 1) refl refl (omega arith) (omega arith) requeues

-- A channel that is full of news of the other workers.
abbrev busy_channel : ℕ → List FailureEvent
busy_channel zero = []
busy_channel (suc n) =
    record { node_id = "w2"; old_state = NodeState.suspect; new_state = NodeState.dead; at = 40 }
    ∷ busy_channel n

abbrev flooded : Membership ℕ
flooded = record members { events = busy_channel 128 }

dies :
    lookup "w1" (tick hash_vnode 50 flooded).nodes ≡ some (record silent { state = NodeState.dead })
unfolding tick lookup insert string_discrete
dies = refl

tick_full_example :
    lookup "a" (handle_events (λ i. 50 + i) 0 (tick hash_vnode 50 flooded).events leased).tasks
    ≡ some (task_of "w1" TaskStatus.running 0)
unfolding lookup string_discrete leased
tick_full_example =
    tick_full hash_vnode 50 flooded (λ i. 50 + i) leased "a" (task_of "w1" TaskStatus.running 0)
      (omega arith) refl refl
