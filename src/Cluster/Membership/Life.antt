-- ===== src/Cluster/Membership/Life.antt =====
-- Runs of registrations, heartbeats and ticks.
use distributed_image_proces.Prelude.{
  some-inj, subst, ℕ, ◌-◌, String, ◌≡◌, refl, sym, inl, inr, true, some, List, [], ◌∷◌, arith, ltb,
  Bool-cases, Option-cases, lookup, Distinct, insert-Distinct, IfSome-some,
}
use distributed_image_proces.Cluster.Membership.{
  NodeState, NodeInfo, Membership, RegisterRequest, emit, register, fresh_node, heartbeat, beat,
  seen_node, tick, tick_all, tick_as, demote, FailureEvent, is_active,
}
use distributed_image_proces.Cluster.Membership.OnRing.{
  Synced, touched-Synced, revived-Synced, heartbeat-Synced, not_dead,
}
use distributed_image_proces.Cluster.Membership.Ticking.{tick-Synced}

module _ {M : Type 0} (hash_vnode : String → ℕ → ℕ) where
  -- The members are in order: none is stored twice, and the ring is in step.
  pub record Orderly (m : Membership M) : Type 0 where
    pub distinct : Distinct m.nodes
    pub synced : Synced m

  -- A call of one of the methods; a registration of a node that is known as dead is left out.
  pub data Calls (m : Membership M) : Membership M → Type 0 where
    no_call : Calls m m
    registers :
        {m' : Membership M} (req : RegisterRequest) (no_metrics : M) (now : ℕ)
        → Calls m m'
        → ((n : NodeInfo M) → lookup req.id m'.nodes ≡ some n → not_dead n.state ≡ true)
        → Calls m (register hash_vnode req no_metrics now m')
    beats :
        {m' m'' : Membership M} (id : String) (metrics : M) (now : ℕ)
        → Calls m m'
        → heartbeat hash_vnode id metrics now m' ≡ some m''
        → Calls m m''
    ticks : {m' : Membership M} (now : ℕ) → Calls m m' → Calls m (tick hash_vnode now m')

  register-Orderly :
      (req : RegisterRequest) (no_metrics : M) (now : ℕ) (m : Membership M)
      → ((n : NodeInfo M) → lookup req.id m.nodes ≡ some n → not_dead n.state ≡ true)
      → Orderly m
      → Orderly (register hash_vnode req no_metrics now m)
  unfolding register fresh_node
  register-Orderly req no_metrics now m live o = elim (Option-cases (lookup req.id m.nodes)) [
    | inl e ↦
        rw (register, e)
          (record {
            distinct =
                insert-Distinct req.id (fresh_node hash_vnode req no_metrics now) m.nodes
                  o.distinct;
            synced =
                revived-Synced hash_vnode req.id (fresh_node hash_vnode req no_metrics now) m
                  o.synced refl refl;
          })
    | inr (n, e) ↦
        let n' = record n { state = NodeState.active; last_seen = now } in
        rw (register, e)
          (record {
            distinct = insert-Distinct req.id n' m.nodes o.distinct;
            synced = touched-Synced req.id n n' m o.synced e refl (sym (live n e));
          })
  ]

  emit-nodes : (ev : FailureEvent) (m : Membership M) → (emit hash_vnode ev m).nodes ≡ m.nodes
  unfolding emit
  emit-nodes ev m = ground arith

  beat-Distinct :
      (id : String) (metrics : M) (now : ℕ) (n : NodeInfo M) (m : Membership M)
      → Distinct m.nodes
      → Distinct (beat hash_vnode id metrics now n m).nodes
  unfolding beat
  beat-Distinct id metrics now n m d =
      let d' = insert-Distinct id (seen_node hash_vnode metrics now n) m.nodes d in
      elim (Bool-cases (is_active n.state)) [
        | inl e ↦ rw (beat, e) d'
        | inr e ↦ rw (beat, e) (rw (emit-nodes _ _) d')
      ]

  tick_as-Distinct :
      (t : NodeState) (k : String) (now : ℕ) (n : NodeInfo M) (m : Membership M)
      → Distinct m.nodes
      → Distinct (tick_as hash_vnode t k now n m).nodes
  unfolding tick_as demote
  tick_as-Distinct NodeState.active k now n m d =
      elim (Bool-cases (ltb m.suspect_timeout (now - n.last_seen))) [
        | inl g ↦
            rw (tick_as, g, demote)
              (rw (emit-nodes _ _)
                (insert-Distinct k (record n { state = NodeState.suspect }) m.nodes d))
        | inr g ↦ rw (tick_as, g) d
      ]
  tick_as-Distinct NodeState.suspect k now n m d =
      elim (Bool-cases (ltb m.dead_timeout (now - n.last_seen))) [
        | inl g ↦
            rw (tick_as, g, demote)
              (rw (emit-nodes _ _)
                (insert-Distinct k (record n { state = NodeState.dead }) m.nodes d))
        | inr g ↦ rw (tick_as, g) d
      ]
  tick_as-Distinct NodeState.dead k now n m d = d

  tick_all-Distinct :
      (now : ℕ) (rest : List (String × NodeInfo M)) (m : Membership M)
      → Distinct m.nodes
      → Distinct (tick_all hash_vnode now rest m).nodes
  unfolding tick_all
  tick_all-Distinct now [] m d = d
  tick_all-Distinct now ((k, n) ∷ rest) m d =
      tick_all-Distinct now rest (tick_as hash_vnode n.state k now n m)
        (tick_as-Distinct n.state k now n m d)

  -- In any run of registrations, heartbeats and ticks, in which no node registers that is known as
  -- dead: a member is in the ring's set of nodes just when it is not dead, and no member is stored
  -- twice.
  pub Calls-Orderly : {m m' : Membership M} → Calls m m' → Orderly m → Orderly m'
  unfolding tick heartbeat
  Calls-Orderly no_call o = o
  Calls-Orderly (registers {m'} req no_metrics now run live) o =
      register-Orderly req no_metrics now m' live (Calls-Orderly run o)
  Calls-Orderly (beats {m'} {m''} id metrics now run e) o =
      let before = Calls-Orderly run o in
      elim (Option-cases (lookup id m'.nodes)) [
        | inl h ↦ absurd (ground (arith, e, h))
        | inr (n, h) ↦
            let same : beat hash_vnode id metrics now n m' ≡ m'' = some-inj (rw h at e) in
            record {
              distinct =
                  subst (λ x. Distinct x.nodes) same
                    (beat-Distinct id metrics now n m' before.distinct);
              synced =
                  IfSome-some Synced (heartbeat hash_vnode id metrics now m') m''
                    (heartbeat-Synced hash_vnode id metrics now m' before.synced) e;
            }
      ]
  Calls-Orderly (ticks {m'} now run) o =
      let before = Calls-Orderly run o in
      record {
        distinct = tick_all-Distinct now m'.nodes m' before.distinct;
        synced = tick-Synced hash_vnode now m' before.distinct before.synced;
      }
