-- ===== src/Cluster/Membership/Ticking.antt =====
-- The ring's set of nodes through a tick.
use distributed_image_proces.Prelude.{
  subst, ℕ, ◌-◌, String, ◌≡◌, refl, sym, ap, ◌∙◌, ◌≢◌, inl, inr, some, List, [], ◌∷◌, arith, ltb,
  Bool-cases, lookup, insert, lookup-insert, Distinct, lookup_tail,
}
use distributed_image_proces.Cluster.Ring.{remove_node}
use distributed_image_proces.Cluster.Membership.{
  NodeState, NodeInfo, FailureEvent, Membership, emit, demote, tick_as, tick_all, tick,
}
use distributed_image_proces.Cluster.Membership.OnRing.{
  not_dead, Synced, emit-Synced, touched-Synced, died-Synced,
}

module _ {M : Type 0} (hash_vnode : String → ℕ → ℕ) (now : ℕ) where
  suspected-Synced :
      (k : String) (n : NodeInfo M) (m : Membership M)
      → Synced m
      → lookup k m.nodes ≡ some n
      → n.state ≡ NodeState.active
      → Synced (demote hash_vnode k NodeState.suspect now n m)
  unfolding demote
  suspected-Synced k n m s h e =
      let u : NodeInfo M = record n { state = NodeState.suspect } in
      let ev : FailureEvent = record {
        node_id = n.id;
        old_state = n.state;
        new_state = NodeState.suspect;
        at = now;
      } in
      emit-Synced hash_vnode ev (record m { nodes = insert k u m.nodes })
        (touched-Synced k n u m s h refl (sym (ap not_dead e)))

  killed-Synced :
      (k : String) (n : NodeInfo M) (m : Membership M)
      → Synced m
      → lookup k m.nodes ≡ some n
      → Synced
          (demote hash_vnode k NodeState.dead now n (record m { ring = remove_node n.id m.ring }))
  unfolding demote
  killed-Synced k n m s h =
      let u : NodeInfo M = record n { state = NodeState.dead } in
      let ev : FailureEvent = record {
        node_id = n.id;
        old_state = n.state;
        new_state = NodeState.dead;
        at = now;
      } in
      emit-Synced hash_vnode ev
        (record m { nodes = insert k u m.nodes; ring = remove_node n.id m.ring })
        (subst (λ x. Synced (record m { nodes = insert k u m.nodes; ring = remove_node x m.ring }))
          (sym (s.ids k n h)) (died-Synced k u m s (s.ids k n h) refl))

  tick_as-Synced :
      (t : NodeState) (k : String) (n : NodeInfo M) (m : Membership M)
      → Synced m
      → lookup k m.nodes ≡ some n
      → n.state ≡ t
      → Synced (tick_as hash_vnode t k now n m)
  unfolding tick_as
  tick_as-Synced NodeState.active k n m s h e =
      elim (Bool-cases (ltb m.suspect_timeout (now - n.last_seen))) [
        | inl g ↦ rw (tick_as, g) (suspected-Synced k n m s h e)
        | inr g ↦ rw (tick_as, g) s
      ]
  tick_as-Synced NodeState.suspect k n m s h e =
      elim (Bool-cases (ltb m.dead_timeout (now - n.last_seen))) [
        | inl g ↦ rw (tick_as, g) (killed-Synced k n m s h)
        | inr g ↦ rw (tick_as, g) s
      ]
  tick_as-Synced NodeState.dead k n m s h e = s

  demote-lookup :
      (j k : String) (state : NodeState) (n : NodeInfo M) (m : Membership M)
      → j ≢ k
      → lookup j (demote hash_vnode k state now n m).nodes ≡ lookup j m.nodes
  unfolding demote emit
  demote-lookup j k state n m d =
      ground (arith, lookup-insert j k (record n { state = state }) m.nodes, d)

  tick_as-lookup :
      (t : NodeState) (j k : String) (n : NodeInfo M) (m : Membership M)
      → j ≢ k
      → lookup j (tick_as hash_vnode t k now n m).nodes ≡ lookup j m.nodes
  unfolding tick_as
  tick_as-lookup NodeState.active j k n m d =
      elim (Bool-cases (ltb m.suspect_timeout (now - n.last_seen))) [
        | inl g ↦ rw (tick_as, g) (demote-lookup j k NodeState.suspect n m d)
        | inr g ↦ rw (tick_as, g) refl
      ]
  tick_as-lookup NodeState.suspect j k n m d =
      elim (Bool-cases (ltb m.dead_timeout (now - n.last_seen))) [
        | inl g ↦
            rw (tick_as, g)
              (demote-lookup j k NodeState.dead n (record m { ring = remove_node n.id m.ring }) d)
        | inr g ↦ rw (tick_as, g) refl
      ]
  tick_as-lookup NodeState.dead j k n m d = refl

  -- The entries still to come are those of the map.
  Current : Membership M → List (String × NodeInfo M) → Type 0
  Current m rest =
      (k : String) (n : NodeInfo M) → lookup k rest ≡ some n → lookup k m.nodes ≡ some n

  tick_all-Synced :
      (rest : List (String × NodeInfo M)) (m : Membership M)
      → Distinct rest
      → Current m rest
      → Synced m
      → Synced (tick_all hash_vnode now rest m)
  unfolding tick_all Current lookup
  tick_all-Synced [] m d c s = s
  tick_all-Synced ((k, n) ∷ rest) m d c s =
      let here : lookup k m.nodes ≡ some n = c k n (ground arith) in
      tick_all-Synced rest (tick_as hash_vnode n.state k now n m) d.1
        (λ j u h.
          let other : j ≢ k =
            λ p. absurd (ground (arith, d.0, h, subst (λ x. lookup x rest ≡ some u) p h)) in
          tick_as-lookup n.state j k n m other ∙ c j u (lookup_tail j k u n rest d.0 h))
        (tick_as-Synced n.state k n m s here refl)

  -- A tick keeps just the members that are not dead in the ring's set of nodes, if no member is stored
  -- twice.
  pub tick-Synced :
      (m : Membership M) → Distinct m.nodes → Synced m → Synced (tick hash_vnode now m)
  unfolding tick Current
  tick-Synced m d s = tick_all-Synced m.nodes m d (λ k n h. h) s
