-- ===== src/Cluster/Tests.antt =====
-- A ring and a membership of two nodes, and the theorems at them.
use distributed_image_proces.Prelude.{
  ◌∙◌, sym, ap, Bool, true, false, ℕ, String, ◌≡◌, refl, ◌≢◌, some, [], ◌∷◌, arith, string_discrete,
  lookup,
}
use distributed_image_proces.Cache.Ids.{contains}
use distributed_image_proces.Cluster.Ring.{Ring, lookup_node, remove_node}
use distributed_image_proces.Cluster.Ring.Remap.{lookup_node-remove_node}
use distributed_image_proces.Cluster.Membership.{
  NodeState, NodeInfo, RegisterRequest, Membership, heartbeat, tick, beat,
}
use distributed_image_proces.Cluster.Membership.Life.{Orderly, Calls-Orderly, ticks, beats, no_call}
use distributed_image_proces.Cluster.Membership.OnRing.{Synced}

abbrev ring : Ring
ring = record {
  vnodes = record { hash = 10; node_id = "a" } ∷ record { hash = 20; node_id = "b" } ∷ [];
  nodes = "a" ∷ [];
  vnodes_per = 1;
}

abbrev hash_key : String → ℕ
hash_key key = 25

abbrev node_a : String
node_a = "a"

abbrev node_b : String
node_b = "b"

abbrev is_a : String → Bool
is_a x = contains x (node_a ∷ [])

b_is_not_a : is_a node_b ≡ false
unfolding contains string_discrete
b_is_not_a = refl

a_is_a : is_a node_a ≡ true
unfolding contains string_discrete
a_is_a = refl

a_not_b : node_a ≢ node_b
a_not_b = λ e. absurd (ground (arith, sym a_is_a ∙ ap is_a e ∙ b_is_not_a))

owned : lookup_node hash_key "x" ring ≡ some "a"
unfolding lookup_node
owned = refl

lookup_node-remove_node_example : lookup_node hash_key "x" (remove_node "b" ring) ≡ some "a"
lookup_node-remove_node_example = lookup_node-remove_node hash_key "x" "b" "a" ring a_not_b owned

abbrev hash_vnode : String → ℕ → ℕ
hash_vnode id i = i

abbrev node : String → NodeState → NodeInfo ℕ
node id state = record {
  id = id;
  address = id;
  state = state;
  last_seen = 5;
  joined_at = 0;
  metrics = 0;
  node_name = "";
}

-- "a" is active, and "b" is dead.
abbrev members : Membership ℕ
members = record {
  nodes = ("a", node "a" NodeState.active) ∷ ("b", node "b" NodeState.dead) ∷ [];
  ring = ring;
  suspect_timeout = 10;
  dead_timeout = 30;
  events = [];
}

members-Synced : Synced members
unfolding lookup contains
members-Synced = record {
  once = (refl, tt);
  ids = λ k n h. ground arith;
  on_ring = λ k n h. ground arith;
}

abbrev again : RegisterRequest
again = record { id = "b"; address = "b"; node_name = "" }

b_dead : lookup "b" members.nodes ≡ some (node "b" NodeState.dead)
unfolding lookup string_discrete
b_dead = refl

Calls-Orderly_example :
    Orderly hash_vnode
      (tick hash_vnode 50 (beat hash_vnode "b" 7 6 (node "b" NodeState.dead) members))
unfolding lookup string_discrete heartbeat
Calls-Orderly_example =
    Calls-Orderly hash_vnode (ticks 50 (beats "b" 7 6 no_call refl))
      (record { distinct = (refl, (refl, tt)); synced = members-Synced })
