-- ===== src/Coordinator/Failures.antt =====
-- internal/coordinator/coordinator.go, failureEventLoop: the events of the failure detector are taken
-- from its channel one after another, and the tasks of a dead worker are put back in the queue.
pub mod Rebalanced
pub mod Freed
pub mod Dropped
mod Tests
use distributed_image_proces.Prelude.{ℕ, ◌+◌, Bool, true, false, List, [], ◌∷◌, if◌then◌else◌}
use distributed_image_proces.Cluster.Membership.{NodeState, FailureEvent}
use distributed_image_proces.Scheduler.State.{Scheduler}
use distributed_image_proces.Scheduler.Settle.{rebalance_worker}

-- `ev.NewState == cluster.NodeDead`
abbrev pub is_dead : NodeState → Bool
is_dead NodeState.dead = true
is_dead _ = false

-- The body of the loop, for an event.
unfoldable pub handle_event : ℕ → FailureEvent → Scheduler → Scheduler
handle_event now ev s = if is_dead ev.new_state then rebalance_worker ev.node_id now s else s

-- The loop, until the channel is empty, if it is not told to stop: the n-th event from here on is handled at the n-th time.
-- No other call of the scheduler comes in between.
unfoldable pub handle_events : (ℕ → ℕ) → ℕ → List FailureEvent → Scheduler → Scheduler
unfolding handle_event
handle_events times n [] s = s
handle_events times n (ev ∷ evs) s = handle_events times (n + 1) evs (handle_event (times n) ev s)
