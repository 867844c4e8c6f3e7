-- ===== src/Cluster/Membership/OnRing.antt =====
-- Which members are in the ring's set of nodes.
use distributed_image_proces.Prelude.{
  ◌∙◌, ap, sym, subst, ℕ, String, ◌≡◌, refl, inl, inr, ite, if_pos, if_neg, Bool, true, false, some,
  ltb, Bool-cases, string_discrete, length, lookup, insert, arith, IfSome, lookup-insert,
  IfSome-bind,
}
use distributed_image_proces.Cache.Ids.{contains, Once, without-Once, contains-without}
use distributed_image_proces.Cluster.Ring.{Ring, add_node, remove_node}
use distributed_image_proces.Cluster.Membership.{
  NodeState, NodeInfo, FailureEvent, Membership, events_cap, emit, is_active, beat, heartbeat,
  seen_node,
}

abbrev pub not_dead : NodeState → Bool
not_dead NodeState.dead = false
not_dead _ = true

add_node-contains :
    (hash_vnode : String → ℕ → ℕ) (k id : String) (r : Ring)
    → contains k (add_node hash_vnode id r).nodes
      ≡ ite (string_discrete k id) true (contains k r.nodes)
unfolding add_node contains
add_node-contains hash_vnode k id r = elim (Bool-cases (contains id r.nodes)) [
  | inl e ↦ elim (string_discrete k id) [
    | yes p ↦ rw (add_node, e, if_pos _ p) (subst (λ x. contains x r.nodes ≡ true) (sym p) e)
    | no p ↦ rw (add_node, e, if_neg _ p) refl
  ]
  | inr e ↦ rw (add_node, e) refl
]

add_node-Once :
    (hash_vnode : String → ℕ → ℕ) (id : String) (r : Ring)
    → Once r.nodes
    → Once (add_node hash_vnode id r).nodes
unfolding add_node
add_node-Once hash_vnode id r o = elim (Bool-cases (contains id r.nodes)) [
  | inl e ↦ rw (add_node, e) o
  | inr e ↦ rw (add_node, e) (e, o)
]

active-not_dead : (t : NodeState) → is_active t ≡ true → not_dead t ≡ true
active-not_dead NodeState.active h = refl
active-not_dead NodeState.suspect h = refl
active-not_dead NodeState.dead h = cc

module _ {M : Type 0} where
  -- A member is stored under its id, and is in the ring's set of nodes just when it is not dead.
  pub record Synced (m : Membership M) : Type 0 where
    pub once : Once m.ring.nodes
    pub ids : (k : String) (n : NodeInfo M) → lookup k m.nodes ≡ some n → n.id ≡ k
    pub on_ring :
        (k : String) (n : NodeInfo M)
        → lookup k m.nodes ≡ some n
        → contains k m.ring.nodes ≡ not_dead n.state

  pub emit-Synced :
      (hash_vnode : String → ℕ → ℕ) (e : FailureEvent) (m : Membership M)
      → Synced m
      → Synced (emit hash_vnode e m)
  unfolding emit
  emit-Synced hash_vnode e m s = elim (Bool-cases (ltb (length m.events) events_cap)) [
    | inl h ↦ rw (emit, h) (record { once = s.once; ids = s.ids; on_ring = s.on_ring })
    | inr h ↦ rw (emit, h) s
  ]

  -- A write of one node, with the ring brought in line.
  stored-Synced :
      (k : String) (n : NodeInfo M) (r : Ring) (m : Membership M)
      → Synced m
      → Once r.nodes
      → n.id ≡ k
      → ((j : String)
          → contains j r.nodes
            ≡ ite (string_discrete j k) (not_dead n.state) (contains j m.ring.nodes))
      → Synced (record m { nodes = insert k n m.nodes; ring = r })
  stored-Synced k n r m s o e f = record {
    once = o;
    ids = λ j u h. ground (arith, lookup-insert j k n m.nodes, h, e, s.ids j u);
    on_ring = λ j u h. elim (string_discrete j k) [
      | yes p ↦
          let same : n ≡ u = ground (arith, lookup-insert j k n m.nodes, h, p) in
          f j ∙ rw (if_pos _ p) (ap (λ x. not_dead x.state) same)
      | no p ↦
          let old : lookup j m.nodes ≡ some u = ground (arith, lookup-insert j k n m.nodes, h, p) in
          f j ∙ rw (if_neg _ p) (s.on_ring j u old)
    ];
  }

  -- The node's new state is as dead as its old one.
  pub touched-Synced :
      (k : String) (n n' : NodeInfo M) (m : Membership M)
      → Synced m
      → lookup k m.nodes ≡ some n
      → n'.id ≡ n.id
      → not_dead n'.state ≡ not_dead n.state
      → Synced (record m { nodes = insert k n' m.nodes })
  touched-Synced k n n' m s h e d = stored-Synced k n' m.ring m s s.once (e ∙ s.ids k n h) (λ j.
      elim (string_discrete j k) [
        | yes p ↦ rw (if_pos _ p) (
            subst (λ x. contains x m.ring.nodes ≡ not_dead n'.state) (sym p)
              (s.on_ring k n h ∙ sym d))
        | no p ↦ rw (if_neg _ p) refl
      ])

  pub revived-Synced :
      (hash_vnode : String → ℕ → ℕ) (k : String) (n : NodeInfo M) (m : Membership M)
      → Synced m
      → n.id ≡ k
      → not_dead n.state ≡ true
      → Synced (record m { nodes = insert k n m.nodes; ring = add_node hash_vnode k m.ring })
  revived-Synced hash_vnode k n m s e d =
      stored-Synced k n (add_node hash_vnode k m.ring) m s
        (add_node-Once hash_vnode k m.ring s.once) e
        (λ j. rw d (add_node-contains hash_vnode j k m.ring))

  pub died-Synced :
      (k : String) (n : NodeInfo M) (m : Membership M)
      → Synced m
      → n.id ≡ k
      → not_dead n.state ≡ false
      → Synced (record m { nodes = insert k n m.nodes; ring = remove_node k m.ring })
  unfolding remove_node
  died-Synced k n m s e d =
      stored-Synced k n (remove_node k m.ring) m s (without-Once k m.ring.nodes s.once) e
        (λ j. rw d (contains-without j k m.ring.nodes s.once))

  beat-Synced :
      (hash_vnode : String → ℕ → ℕ) (id : String) (metrics : M) (now : ℕ) (n : NodeInfo M)
      (m : Membership M)
      → Synced m
      → lookup id m.nodes ≡ some n
      → Synced (beat hash_vnode id metrics now n m)
  unfolding beat seen_node
  beat-Synced hash_vnode id metrics now n m s h = elim (Bool-cases (is_active n.state)) [
    | inl e ↦
        rw (beat, e)
          (touched-Synced id n (seen_node hash_vnode metrics now n) m s h refl
            (sym (active-not_dead n.state e)))
    | inr e ↦
        let ev : FailureEvent = record {
          node_id = n.id;
          old_state = n.state;
          new_state = NodeState.active;
          at = now;
        } in
        let u : NodeInfo M = seen_node hash_vnode metrics now n in
        let m' : Membership M = record m {
          nodes = insert id u m.nodes;
          ring = add_node hash_vnode n.id m.ring;
        } in
        let fine : Synced m' =
          subst
            (λ x.
              Synced
                (record m { nodes = insert id u m.nodes; ring = add_node hash_vnode x m.ring }))
            (sym (s.ids id n h)) (revived-Synced hash_vnode id u m s (s.ids id n h) refl) in
        rw (beat, e) (emit-Synced hash_vnode ev m' fine)
  ]

  -- A heartbeat of a known node keeps just the members that are not dead in the ring's set of nodes.
  pub heartbeat-Synced :
      (hash_vnode : String → ℕ → ℕ) (id : String) (metrics : M) (now : ℕ) (m : Membership M)
      → Synced m
      → IfSome Synced (heartbeat hash_vnode id metrics now m)
  unfolding heartbeat
  heartbeat-Synced hash_vnode id metrics now m s =
      IfSome-bind Synced (lookup id m.nodes) _
        (λ n h. beat-Synced hash_vnode id metrics now n m s h)
