-- ===== src/Diag/LockOrder.antt =====
-- The lock-order graph of internal/diag/lock.go. A goroutine's id is a string of the model, a set of
-- names is the list of its members, and the order in which Go walks a map is that of the list. The
-- log lines are left out.
pub mod Reachable
pub mod Visits
pub mod Cycles
use Prim.Native.String.{◌++◌ as append}
use distributed_image_proces.Prelude.{
  ℕ, zero, suc, ◌+◌, String, Bool, true, false, ◌||◌, ite, Option, none, some, List, [], ◌∷◌, ◌++◌,
  if◌then◌else◌, length, string_discrete, lookup_or, insert, delete, sum_map,
}
use distributed_image_proces.Cache.Ids.{contains}

-- `edges`: from a lock to the locks that were acquired while it was held.
abbrev pub Edges : Type 0
Edges = List (String × List String)

-- The variables of the graph: `heldByG`, `edges`, `reported` and `cycleCount`.
pub record LockGraph : Type 0 where
  pub held_by : List (String × List String)
  pub edges : Edges
  pub reported : List String
  pub cycle_count : ℕ

-- The maps as the package starts, and as resetGraph makes them.
unfoldable pub reset_graph : LockGraph
reset_graph = record { held_by = []; edges = []; reported = []; cycle_count = 0 }

abbrev pub add_member : String → List String → List String
add_member x xs = if contains x xs then xs else x ∷ xs

abbrev pub next_of : String → Edges → List String
next_of n es = lookup_or n [] es

-- addEdgeLocked
unfoldable pub add_edge : String → String → Edges → Edges
unfolding contains
add_edge from to es = insert from (add_member to (next_of from es)) es

-- The inner loop of reachableLocked over what follows one node, on `seen` and `stack`, whose end is the
-- head of the list; `none` is the early return of true.
unfoldable pub visit :
    String → List String → List String → List String → Option (List String × List String)
unfolding contains
visit to [] seen stack = some (seen, stack)
visit to (next ∷ rest) seen stack =
    let later =
      visit to rest (add_member next seen) (if contains next seen then stack else next ∷ stack) in
    ite (string_discrete next to) none later

-- The outer loop. Each turn takes a name off the stack, and each name is put there once.
unfoldable pub search_from : ℕ → String → Edges → List String → List String → Bool
unfolding visit
search_from zero to es seen stack = false
search_from (suc fuel) to es seen [] = false
search_from (suc fuel) to es seen (n ∷ stack) = elim (visit to (next_of n es) seen stack) [
  | none ↦ true
  | some (seen', stack') ↦ search_from fuel to es seen' stack'
]

-- The number of edges.
abbrev pub edge_count : Edges → ℕ
edge_count es = sum_map length es

-- reachableLocked
unfoldable pub reachable : String → String → Edges → Bool
unfolding search_from
reachable from to es =
    ite (string_discrete from to) true
      (search_from (edge_count es + 2) to es (from ∷ []) (from ∷ []))

-- The key of a pair in `reported`.
abbrev pub pair_key : String → String → String
pair_key a b = append a (append "|" b)

-- warnCycleLocked
unfoldable pub warn_cycle : String → String → LockGraph → LockGraph
unfolding contains
warn_cycle a b g =
    if contains (pair_key a b) g.reported || contains (pair_key b a) g.reported
    then g
    else record g { reported = pair_key a b ∷ g.reported; cycle_count = g.cycle_count + 1 }

-- One turn of enterAcquire, for a lock that is held.
unfoldable pub enter_one : String → String → LockGraph → LockGraph
unfolding add_edge reachable warn_cycle
enter_one name held g =
    let es = add_edge held name g.edges in
    let g' : LockGraph = record g { edges = es } in
    ite (string_discrete held name) g
      (if reachable name held es then warn_cycle held name g' else g')

unfoldable pub enter_all : String → List String → LockGraph → LockGraph
unfolding enter_one
enter_all name [] g = g
enter_all name (held ∷ rest) g = enter_all name rest (enter_one name held g)

-- enterAcquire
unfoldable pub enter_acquire : String → String → LockGraph → LockGraph
unfolding enter_all
enter_acquire goid name g = enter_all name (lookup_or goid [] g.held_by) g

-- markHeld
unfoldable pub mark_held : String → String → LockGraph → LockGraph
mark_held goid name g = record g {
  held_by = insert goid (lookup_or goid [] g.held_by ++ name ∷ []) g.held_by;
}

-- The most recent occurrence of a name, taken out.
unfoldable pub remove_last : String → List String → List String
unfolding contains
remove_last name [] = []
remove_last name (x ∷ xs) =
    let rest = remove_last name xs in
    if contains name xs then x ∷ rest else ite (string_discrete name x) xs (x ∷ xs)

-- What a goroutine holds from now on; one that holds nothing has no entry.
unfoldable pub hold_only : String → List String → LockGraph → LockGraph
hold_only goid [] g = record g { held_by = delete goid g.held_by }
hold_only goid (x ∷ xs) g = record g { held_by = insert goid (x ∷ xs) g.held_by }

-- markReleased
unfoldable pub mark_released : String → String → LockGraph → LockGraph
unfolding remove_last hold_only
mark_released goid name g = hold_only goid (remove_last name (lookup_or goid [] g.held_by)) g
