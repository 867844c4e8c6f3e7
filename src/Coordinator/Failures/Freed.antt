-- ===== src/Coordinator/Failures/Freed.antt =====
-- The tasks of a worker that a tick declares dead.
use distributed_image_proces.Prelude.{
  ℕ, ◌+◌, ◌-◌, ◌≤◌, ◌<◌, String, ◌≡◌, refl, sym, ap, ◌∙◌, ite, Bool, true, false, ◌||◌, Bool-cases,
  inl, inr, some, List, [], ◌∷◌, ◌++◌, lookup, ltb, arith, length-append, string_discrete, length,
  subst,
}
use distributed_image_proces.Cluster.Membership.{
  NodeState, NodeInfo, FailureEvent, Membership, events_cap, emit, demote, tick_as, tick_all, tick,
}
use distributed_image_proces.Scheduler.Job.{Task}
use distributed_image_proces.Scheduler.State.{Scheduler}
use distributed_image_proces.Scheduler.Settle.{held_by, rebalance_worker}
use distributed_image_proces.Coordinator.Failures.{is_dead, handle_event, handle_events}
use distributed_image_proces.Coordinator.Failures.Rebalanced.{
  Spared, Free, rebalance_worker-Spared, rebalance_worker-Free,
}

-- An event says that the node is dead.
abbrev pub announces : String → FailureEvent → Bool
announces w ev = ite (string_discrete ev.node_id w) (is_dead ev.new_state) false

abbrev pub announced : String → List FailureEvent → Bool
announced w [] = false
announced w (ev ∷ evs) = announces w ev || announced w evs

announced-append :
    (w : String) (as_ bs : List FailureEvent)
    → announced w (as_ ++ bs) ≡ (announced w as_ || announced w bs)
announced-append w [] bs = refl
announced-append w (a ∷ as_) bs = ground (arith, announced-append w as_ bs)

handle_event-Free :
    (w : String) (now : ℕ) (ev : FailureEvent) (s : Scheduler)
    → Free w s
    → Free w (handle_event now ev s)
unfolding handle_event
handle_event-Free w now ev s f k = elim (Bool-cases (is_dead ev.new_state)) [
  | inl d ↦ rw d (rebalance_worker-Spared w ev.node_id k now s (f k))
  | inr d ↦ rw d (f k)
]

handle_event-announces :
    (w : String) (now : ℕ) (ev : FailureEvent) (s : Scheduler)
    → announces w ev ≡ true
    → Free w (handle_event now ev s)
unfolding handle_event
handle_event-announces w now ev s a k =
    let node : ev.node_id ≡ w = ground arith in
    let died : is_dead ev.new_state ≡ true = ground arith in
    rw died (
      subst (λ x. Spared x k (rebalance_worker ev.node_id now s)) node
        (rebalance_worker-Free ev.node_id now s k))

handle_events-Free :
    (w : String) (times : ℕ → ℕ) (n : ℕ) (evs : List FailureEvent) (s : Scheduler)
    → Free w s
    → Free w (handle_events times n evs s)
unfolding handle_events
handle_events-Free w times n [] s f = f
handle_events-Free w times n (ev ∷ evs) s f =
    handle_events-Free w times (n + 1) evs _ (handle_event-Free w (times n) ev s f)

handle_events-announced :
    (w : String) (times : ℕ → ℕ) (n : ℕ) (evs : List FailureEvent) (s : Scheduler)
    → announced w evs ≡ true
    → Free w (handle_events times n evs s)
unfolding handle_events
handle_events-announced w times n [] s a = absurd (cc a)
handle_events-announced w times n (ev ∷ evs) s a = elim (Bool-cases (announces w ev)) [
  | inl here ↦
      handle_events-Free w times (n + 1) evs _ (handle_event-announces w (times n) ev s here)
  | inr other ↦ handle_events-announced w times (n + 1) evs _ (ground arith)
]

module _ {M : Type 0} (hash_vnode : String → ℕ → ℕ) (w : String) where
  -- A node's turn in a tick adds at most one event, and takes none away.
  record Grew (m m' : Membership M) : Type 0 where
    timeout : m'.dead_timeout ≡ m.dead_timeout
    longer : length m'.events ≤ length m.events + 1
    kept : announced w m.events ≡ true → announced w m'.events ≡ true

  emit-Grew :
      (ev : FailureEvent) (m m' : Membership M)
      → m'.dead_timeout ≡ m.dead_timeout
      → m'.events ≡ m.events
      → Grew m (emit hash_vnode ev m')
  unfolding emit
  emit-Grew ev m m' t e = elim (Bool-cases (ltb (length m'.events) events_cap)) [
    | inl room ↦
        rw (emit, room)
          (record {
            timeout = t;
            longer = ground (arith, length-append m'.events (ev ∷ []), e);
            kept = λ a. announced-append w m'.events (ev ∷ []) ∙ ground (arith, a, e);
          })
    | inr full ↦
        rw (emit, full)
          (record { timeout = t; longer = ground (arith, e); kept = λ a. ap (announced w) e ∙ a })
  ]

  same-Grew : (m : Membership M) → Grew m m
  same-Grew m = record { timeout = refl; longer = omega arith; kept = λ a. a }

  tick_as-Grew :
      (t : NodeState) (k : String) (now : ℕ) (n : NodeInfo M) (m : Membership M)
      → Grew m (tick_as hash_vnode t k now n m)
  unfolding tick_as demote
  tick_as-Grew NodeState.active k now n m =
      elim (Bool-cases (ltb m.suspect_timeout (now - n.last_seen))) [
        | inl g ↦ rw (tick_as, g, demote) (emit-Grew _ m _ refl refl)
        | inr g ↦ rw (tick_as, g) (same-Grew m)
      ]
  tick_as-Grew NodeState.suspect k now n m =
      elim (Bool-cases (ltb m.dead_timeout (now - n.last_seen))) [
        | inl g ↦ rw (tick_as, g, demote) (emit-Grew _ m _ refl refl)
        | inr g ↦ rw (tick_as, g) (same-Grew m)
      ]
  tick_as-Grew NodeState.dead k now n m = same-Grew m

  -- A node that is declared dead while there is room is announced.
  tick_as-announced :
      (k : String) (now : ℕ) (n : NodeInfo M) (m : Membership M)
      → n.id ≡ w
      → m.dead_timeout < now - n.last_seen
      → length m.events < events_cap
      → announced w (tick_as hash_vnode NodeState.suspect k now n m).events ≡ true
  unfolding tick_as demote emit
  tick_as-announced k now n m node late room =
      let ev : FailureEvent = record {
        node_id = n.id;
        old_state = n.state;
        new_state = NodeState.dead;
        at = now;
      } in
      let overdue : ltb m.dead_timeout (now - n.last_seen) ≡ true = ground (arith, late) in
      let free : ltb (length m.events) events_cap ≡ true = ground (arith, room) in
      rw (tick_as, overdue, demote, emit, free)
        (announced-append w m.events (ev ∷ []) ∙ ground (arith, node))

  tick_all-announced :
      (now : ℕ) (rest : List (String × NodeInfo M)) (m : Membership M)
      → announced w m.events ≡ true
      → announced w (tick_all hash_vnode now rest m).events ≡ true
  unfolding tick_all
  tick_all-announced now [] m a = a
  tick_all-announced now ((k, n) ∷ rest) m a =
      tick_all-announced now rest _ ((tick_as-Grew n.state k now n m).kept a)

  tick_all-dead :
      (now : ℕ) (k : String) (n : NodeInfo M) (rest : List (String × NodeInfo M)) (m : Membership M)
      → lookup k rest ≡ some n
      → n.id ≡ w
      → n.state ≡ NodeState.suspect
      → m.dead_timeout < now - n.last_seen
      → length m.events + length rest ≤ events_cap
      → announced w (tick_all hash_vnode now rest m).events ≡ true
  unfolding tick_all lookup
  tick_all-dead now k n [] m h node s late room = absurd (cc h)
  tick_all-dead now k n ((j, v) ∷ rest) m h node s late room =
      let grew = tick_as-Grew v.state j now v m in
      elim (string_discrete k j) [
        | yes e ↦
            let here : v ≡ n = ground arith in
            tick_all-announced now rest _ (
              subst (λ x. announced w (tick_as hash_vnode x j now v m).events ≡ true)
                (sym (ap (λ x. x.state) here ∙ s))
                (tick_as-announced j now v m (ap (λ x. x.id) here ∙ node)
                  (ground (arith, here, late)) (ground (arith, room))))
        | no d ↦
            tick_all-dead now k n rest _ (ground arith) node s
              (let same = grew.timeout in ground (arith, same, late))
              (let longer = grew.longer in ground (arith, longer, room))
      ]

-- When a tick declares a node dead, and the channel has room for one more event of every node, then
-- no task in flight is left with the node once the event loop has handled what waits in the channel,
-- with no other call of the scheduler in between.
pub tick-Free :
    {M : Type 0} (hash_vnode : String → ℕ → ℕ) (now : ℕ) (k : String) (n : NodeInfo M)
    (m : Membership M) (times : ℕ → ℕ) (s : Scheduler) (tid : String) (t : Task)
    → lookup k m.nodes ≡ some n
    → n.state ≡ NodeState.suspect
    → m.dead_timeout < now - n.last_seen
    → length m.events + length m.nodes ≤ events_cap
    → lookup tid (handle_events times 0 (tick hash_vnode now m).events s).tasks ≡ some t
    → held_by n.id t ≡ false
unfolding tick
tick-Free hash_vnode now k n m times s tid t h e late room found =
    (handle_events-announced n.id times 0 (tick hash_vnode now m).events s
        (tick_all-dead hash_vnode n.id now k n m.nodes m h refl e late room) tid).free
      t found
