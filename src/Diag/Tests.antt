-- ===== src/Diag/Tests.antt =====
-- Two goroutines that take two locks in opposite orders, and the theorems at them.
use distributed_image_proces.Prelude.{
  ◌≡◌, ◌↔◌, refl, true, [], ◌∷◌, string_discrete, lookup, insert,
}
use distributed_image_proces.Diag.LockOrder.{
  LockGraph, Edges, reset_graph, reachable, enter_acquire, mark_held,
}
use distributed_image_proces.Diag.LockOrder.Reachable.{Leads, reachable-Leads}
use distributed_image_proces.Diag.LockOrder.Cycles.{
  Acyclic, started, enters, holds, LockRun-cycle_count,
}

abbrev chain : Edges
chain = ("a", "b" ∷ []) ∷ ("b", "c" ∷ "a" ∷ []) ∷ []

finds : reachable "a" "c" chain ≡ true
unfolding reachable lookup string_discrete
finds = refl

reachable-Leads_example : (reachable "a" "c" chain ≡ true) ↔ Leads chain "a" "c"
reachable-Leads_example = reachable-Leads "a" "c" chain

abbrev crossed : LockGraph
crossed =
    enter_acquire "2" "a"
      (mark_held "2" "b" (enter_acquire "1" "b" (mark_held "1" "a" reset_graph)))

crossed_once : crossed.cycle_count ≡ 1
unfolding enter_acquire mark_held reset_graph lookup insert string_discrete
crossed_once = refl

LockRun-cycle_count_example : (crossed.cycle_count ≡ 0) ↔ Acyclic crossed.edges
LockRun-cycle_count_example =
    LockRun-cycle_count (enters "2" "a" (holds "2" "b" (enters "1" "b" (holds "1" "a" started))))
