-- ===== src/Coordinator/Failures/Dropped.antt =====
-- Events that find the channel full.
use distributed_image_proces.Prelude.{
  ℕ, ◌+◌, ◌≤◌, String, ◌≡◌, ◌≢◌, refl, sym, ap, ◌∙◌, if_neg, false, Option-cases, Bool-cases, inl,
  inr, some, List, [], ◌∷◌, lookup, lookup-insert, ltb, arith, string_discrete, length,
}
use distributed_image_proces.Cluster.Membership.{
  NodeState, NodeInfo, FailureEvent, Membership, events_cap, emit, demote, tick_as, tick_all, tick,
}
use distributed_image_proces.Scheduler.Job.{Task}
use distributed_image_proces.Scheduler.State.{Scheduler}
use distributed_image_proces.Scheduler.Settle.{
  held_by, rebalance_one, rebalance_keys, keys, rebalance_worker,
}
use distributed_image_proces.Coordinator.Failures.{is_dead, handle_event, handle_events}
use distributed_image_proces.Coordinator.Failures.Rebalanced.{give_up-tasks, persist-tasks}
use distributed_image_proces.Coordinator.Failures.Freed.{announces, announced}

-- RebalanceWorker leaves the tasks of the other workers as they are.
module _ (worker tid : String) (t : Task) (other : t.worker_id ≢ worker) where
  rebalance_one-other :
      (now : ℕ) (j : String) (s : Scheduler) (n : ℕ)
      → lookup tid s.tasks ≡ some t
      → lookup tid (rebalance_one worker now j (s, n)).0.tasks ≡ some t
  unfolding rebalance_one held_by
  rebalance_one-other now j s n h = elim (Option-cases (lookup j s.tasks)) [
    | inl e ↦ rw (rebalance_one, e) h
    | inr (u, e) ↦ elim (Bool-cases (held_by worker u)) [
      | inr b ↦ rw (rebalance_one, e) (rw b h)
      | inl b ↦
          let (v, idle, same) = give_up-tasks now j u s n in
          let apart : tid ≢ j =
            λ p. (let is_u : u ≡ t = ground (arith, e, h, p) in other (ground (arith, b, is_u))) in
          rw (rebalance_one, e)
            (rw b (
              ap (lookup tid) same
              ∙ lookup-insert tid j v s.tasks
              ∙ if_neg (string_discrete tid j) apart (some v) (lookup tid s.tasks)
              ∙ h))
    ]
  ]

  rebalance_keys-other :
      (now : ℕ) (ks : List String) (s : Scheduler) (n : ℕ)
      → lookup tid s.tasks ≡ some t
      → lookup tid (rebalance_keys worker now ks (s, n)).0.tasks ≡ some t
  unfolding rebalance_keys
  rebalance_keys-other now [] s n h = h
  rebalance_keys-other now (j ∷ ks) s n h =
      let r = rebalance_one worker now j (s, n) in
      rebalance_keys-other now ks r.0 r.1 (rebalance_one-other now j s n h)

  rebalance_worker-other :
      (now : ℕ) (s : Scheduler)
      → lookup tid s.tasks ≡ some t
      → lookup tid (rebalance_worker worker now s).tasks ≡ some t
  unfolding rebalance_worker
  rebalance_worker-other now s h =
      let r = rebalance_keys worker now (keys s.tasks) (s, 0) in
      let kept : lookup tid r.0.tasks ≡ some t = rebalance_keys-other now (keys s.tasks) s 0 h in
      elim (Bool-cases (ltb 0 r.1)) [
        | inl b ↦ rw b (ap (lookup tid) (persist-tasks r.0) ∙ kept)
        | inr b ↦ rw b kept
      ]

handle_event-other :
    (now : ℕ) (ev : FailureEvent) (s : Scheduler) (tid : String) (t : Task)
    → announces t.worker_id ev ≡ false
    → lookup tid s.tasks ≡ some t
    → lookup tid (handle_event now ev s).tasks ≡ some t
unfolding handle_event
handle_event-other now ev s tid t a h = elim (Bool-cases (is_dead ev.new_state)) [
  | inl d ↦
      let other : t.worker_id ≢ ev.node_id = λ p. absurd (ground (arith, a, d, sym p)) in
      rw d (rebalance_worker-other ev.node_id tid t other now s h)
  | inr d ↦ rw d h
]

handle_events-unannounced :
    (times : ℕ → ℕ) (n : ℕ) (evs : List FailureEvent) (s : Scheduler) (tid : String) (t : Task)
    → announced t.worker_id evs ≡ false
    → lookup tid s.tasks ≡ some t
    → lookup tid (handle_events times n evs s).tasks ≡ some t
unfolding handle_events
handle_events-unannounced times n [] s tid t a h = h
handle_events-unannounced times n (ev ∷ evs) s tid t a h =
    handle_events-unannounced times (n + 1) evs _ tid t (ground arith)
      (handle_event-other (times n) ev s tid t (ground arith) h)

module _ {M : Type 0} (hash_vnode : String → ℕ → ℕ) where
  tick_as_full :
      (t : NodeState) (k : String) (now : ℕ) (n : NodeInfo M) (m : Membership M)
      → events_cap ≤ length m.events
      → (tick_as hash_vnode t k now n m).events ≡ m.events
  unfolding tick_as demote emit
  tick_as_full NodeState.active k now n m full = ground arith
  tick_as_full NodeState.suspect k now n m full = ground arith
  tick_as_full NodeState.dead k now n m full = refl

  tick_all_full :
      (now : ℕ) (rest : List (String × NodeInfo M)) (m : Membership M)
      → events_cap ≤ length m.events
      → (tick_all hash_vnode now rest m).events ≡ m.events
  unfolding tick_all
  tick_all_full now [] m full = refl
  tick_all_full now ((k, n) ∷ rest) m full =
      let same = tick_as_full n.state k now n m full in
      tick_all_full now rest _ (ground (arith, same, full)) ∙ same

  -- A tick that finds the channel full adds nothing to it: a task whose worker no waiting event declares
  -- dead is as it was after the event loop has handled them all, with no other call of the scheduler in
  -- between, whatever the tick made of its worker.
  pub tick_full :
      (now : ℕ) (m : Membership M) (times : ℕ → ℕ) (s : Scheduler) (tid : String) (t : Task)
      → events_cap ≤ length m.events
      → announced t.worker_id m.events ≡ false
      → lookup tid s.tasks ≡ some t
      → lookup tid (handle_events times 0 (tick hash_vnode now m).events s).tasks ≡ some t
  unfolding tick
  tick_full now m times s tid t full quiet h =
      handle_events-unannounced times 0 _ s tid t
        (ap (announced t.worker_id) (tick_all_full now m.nodes m full) ∙ quiet) h
