-- ===== src/Cluster/Membership.antt =====
-- internal/cluster/membership.go, with the records of node.go. Times are numbers, and an age that
-- would be negative is 0. The metrics of a node are of a type that the model leaves open; writes to
-- the log are left out.
pub mod OnRing
pub mod Ticking
pub mod Life
use distributed_image_proces.Prelude.{
  ◌>>=◌, map, ℕ, ◌-◌, String, Bool, true, false, Option, none, some, List, [], ◌∷◌, ◌++◌, ltb,
  if◌then◌else◌, length, lookup, insert,
}
use distributed_image_proces.Cluster.Ring.{Ring, add_node, remove_node}

pub data NodeState : Type 0 where
  active : NodeState
  suspect : NodeState
  dead : NodeState

abbrev pub is_active : NodeState → Bool
is_active NodeState.active = true
is_active _ = false

pub record NodeInfo (M : Type 0) : Type 0 where
  pub id : String
  pub address : String
  pub state : NodeState
  pub last_seen : ℕ
  pub joined_at : ℕ
  pub metrics : M
  pub node_name : String

pub record FailureEvent : Type 0 where
  pub node_id : String
  pub old_state : NodeState
  pub new_state : NodeState
  pub at : ℕ

pub record RegisterRequest : Type 0 where
  pub id : String
  pub address : String
  pub node_name : String

pub record Membership (M : Type 0) : Type 0 where
  pub nodes : List (String × NodeInfo M)
  pub ring : Ring
  pub suspect_timeout : ℕ
  pub dead_timeout : ℕ
  -- What waits in the channel.
  pub events : List FailureEvent

-- The capacity of the channel.
abbrev pub events_cap : ℕ
events_cap = 128

module _ {M : Type 0} (hash_vnode : String → ℕ → ℕ) where
  -- emit: an event that finds the channel full is dropped.
  unfoldable pub emit : FailureEvent → Membership M → Membership M
  emit e m =
      if ltb (length m.events) events_cap then record m { events = m.events ++ e ∷ [] } else m

  unfoldable pub fresh_node : RegisterRequest → M → ℕ → NodeInfo M
  fresh_node req no_metrics now = record {
    id = req.id;
    address = req.address;
    state = NodeState.active;
    last_seen = now;
    joined_at = now;
    metrics = no_metrics;
    node_name = "";
  }

  -- Register; `no_metrics` is the zero value.
  unfoldable pub register : RegisterRequest → M → ℕ → Membership M → Membership M
  unfolding fresh_node
  register req no_metrics now m = elim (lookup req.id m.nodes) [
    | some n ↦ record m {
      nodes = insert req.id (record n { state = NodeState.active; last_seen = now }) m.nodes;
    }
    | none ↦ record m {
      nodes = insert req.id (fresh_node req no_metrics now) m.nodes;
      ring = add_node hash_vnode req.id m.ring;
    }
  ]

  unfoldable pub seen_node : M → ℕ → NodeInfo M → NodeInfo M
  seen_node metrics now n = record n {
    state = NodeState.active;
    last_seen = now;
    metrics = metrics;
  }

  -- Heartbeat on a known node.
  unfoldable pub beat : String → M → ℕ → NodeInfo M → Membership M → Membership M
  unfolding seen_node emit
  beat id metrics now n m =
      let m' = record m { nodes = insert id (seen_node metrics now n) m.nodes } in
      if is_active n.state
      then m'
      else emit
          (record { node_id = n.id; old_state = n.state; new_state = NodeState.active; at = now })
          (record m' { ring = add_node hash_vnode n.id m.ring })

  -- Heartbeat; `none` is the error of an unknown node.
  unfoldable pub heartbeat : String → M → ℕ → Membership M → Option (Membership M)
  unfolding beat
  heartbeat id metrics now m = do n ← lookup id m.nodes; some (beat id metrics now n m)

  unfoldable pub demote : String → NodeState → ℕ → NodeInfo M → Membership M → Membership M
  unfolding emit
  demote k state now n m =
      emit (record { node_id = n.id; old_state = n.state; new_state = state; at = now })
        (record m { nodes = insert k (record n { state = state }) m.nodes })

  -- The switch in Tick's loop, by the node's state.
  unfoldable pub tick_as : NodeState → String → ℕ → NodeInfo M → Membership M → Membership M
  unfolding demote
  tick_as NodeState.active k now n m =
      if ltb m.suspect_timeout (now - n.last_seen) then demote k NodeState.suspect now n m else m
  tick_as NodeState.suspect k now n m =
      if ltb m.dead_timeout (now - n.last_seen)
      then demote k NodeState.dead now n (record m { ring = remove_node n.id m.ring })
      else m
  tick_as NodeState.dead k now n m = m

  -- Tick's loop.
  unfoldable pub tick_all : ℕ → List (String × NodeInfo M) → Membership M → Membership M
  unfolding tick_as
  tick_all now [] m = m
  tick_all now ((k, n) ∷ rest) m = tick_all now rest (tick_as n.state k now n m)

  -- Tick
  unfoldable pub tick : ℕ → Membership M → Membership M
  unfolding tick_all
  tick now m = tick_all now m.nodes m

-- The reads. AllNodes gives the entries without their keys.
module _ {M : Type 0} where
  unfoldable pub active_of : List (String × NodeInfo M) → List (NodeInfo M)
  active_of [] = []
  active_of ((_, n) ∷ rest) = let out = active_of rest in if is_active n.state then n ∷ out else out

  -- ActiveNodes
  unfoldable pub active_nodes : Membership M → List (NodeInfo M)
  unfolding active_of
  active_nodes m = active_of m.nodes

  -- AllNodes
  unfoldable pub all_nodes : Membership M → List (NodeInfo M)
  all_nodes m = map (λ e. e.1) m.nodes

  -- NodeAddress; `none` is its error.
  unfoldable pub node_address : String → Membership M → Option String
  node_address id m = do n ← lookup id m.nodes; some n.address
