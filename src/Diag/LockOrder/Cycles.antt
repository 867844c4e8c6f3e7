-- ===== src/Diag/LockOrder/Cycles.antt =====
-- The count of warnings and the cycles of the recorded orders.
use distributed_image_proces.Prelude.{
  ◌<◌, String, ◌≡◌, ◌↔◌, refl, sym, ◌⊎◌, inl, inr, ite, if_pos, if_neg, true, false, ◌||◌, List, [],
  ◌∷◌, arith, subst, string_discrete, length, lookup_or, lookup, Bool-cases, lookup-insert,
}
use native.Mathlib.Decide.{dec_lt}
use distributed_image_proces.Cache.Ids.{contains}
use distributed_image_proces.Diag.LockOrder.{
  Edges, LockGraph, reset_graph, next_of, add_edge, add_member, reachable, pair_key, warn_cycle,
  enter_one, enter_all, enter_acquire, mark_held, mark_released, hold_only, remove_last,
}
use distributed_image_proces.Diag.LockOrder.Visits.{
  add_member_self, add_member-cases, contains-add_member,
}
use distributed_image_proces.Diag.LockOrder.Reachable.{
  Edge, Leads, stays, goes, Leads-Leads, reachable-Leads,
}

-- No edge stands on a cycle.
abbrev pub Acyclic : Edges → Type 0
Acyclic es = (a b : String) → Edge es a b → ¬ (Leads es b a)

next_of-add_edge :
    (from to a : String) (es : Edges)
    → next_of a (add_edge from to es)
      ≡ ite (string_discrete a from) (add_member to (next_of from es)) (next_of a es)
unfolding add_edge
next_of-add_edge from to a es =
    ground (arith, lookup-insert a from (add_member to (next_of from es)) es)

module _ (from to : String) (es : Edges) where
  add_edge_self : Edge (add_edge from to es) from to
  add_edge_self =
      rw (next_of-add_edge from to from es, if_pos (string_discrete from from) refl)
        (add_member_self to (next_of from es))

  Edge-add_edge : (a b : String) → Edge es a b → Edge (add_edge from to es) a b
  Edge-add_edge a b e = elim (string_discrete a from) [
    | yes p ↦
        rw (next_of-add_edge from to a es, if_pos (string_discrete a from) p)
          (contains-add_member b to (next_of from es) (subst (λ x. Edge es x b) p e))
    | no n ↦ rw (next_of-add_edge from to a es, if_neg (string_discrete a from) n) e
  ]

  add_edge-cases :
      (a b : String) → Edge (add_edge from to es) a b → Edge es a b ⊎ ((a ≡ from) × (b ≡ to))
  add_edge-cases a b e = elim (string_discrete a from) [
    | yes p ↦
        let new : contains b (add_member to (next_of from es)) ≡ true =
          rw (next_of-add_edge from to a es, if_pos (string_discrete a from) p) at e in
        elim (add_member-cases b to (next_of from es) new) [
          | inl q ↦ inr (p, q)
          | inr old ↦ inl (subst (λ x. Edge es x b) (sym p) old)
        ]
    | no n ↦ inl (rw (next_of-add_edge from to a es, if_neg (string_discrete a from) n) at e)
  ]

Leads-add_edge :
    {es : Edges} {a b : String} (from to : String) → Leads es a b → Leads (add_edge from to es) a b
Leads-add_edge from to (stays p) = stays p
Leads-add_edge {es} from to (goes {a} {b} e l) =
    goes (Edge-add_edge from to es a b e) (Leads-add_edge from to l)

-- A path of the new graph is one of the old graph, or goes through the new edge.
through_edge :
    (from to : String) (es : Edges) {a b : String}
    → Leads (add_edge from to es) a b
    → Leads es a b ⊎ (Leads es a from × Leads es to b)
through_edge from to es (stays p) = inl (stays p)
through_edge from to es (goes {a} {b = m} {c} e l) = elim (add_edge-cases from to es a m e) [
  | inl old ↦ elim (through_edge from to es l) [
    | inl q ↦ inl (goes old q)
    | inr (q, r) ↦ inr (goes old q, r)
  ]
  | inr (p, q) ↦ inr (
    stays p,
    elim (through_edge from to es l) [ inl r ↦ subst (λ x. Leads es x c) q r | inr (_, r) ↦ r ],
  )
]

Acyclic-add_edge :
    (from to : String) (es : Edges)
    → Acyclic es
    → ¬ (Leads (add_edge from to es) to from)
    → Acyclic (add_edge from to es)
Acyclic-add_edge from to es acyclic back a b e l = elim (add_edge-cases from to es a b e) [
  | inr (p, q) ↦ back (
      subst (λ x. Leads (add_edge from to es) x from) q (subst (Leads (add_edge from to es) b) p l))
  | inl old ↦ elim (through_edge from to es l) [
    | inl r ↦ acyclic a b old r
    | inr (r, t) ↦ back (Leads-add_edge from to (Leads-Leads t (goes old r)))
  ]
]

-- A cycle of the graph.
abbrev pub HasCycle : Edges → Type 0
HasCycle es = (a : String) × (b : String) × Edge es a b × Leads es b a

-- The warnings are those of `reported`, there is none without a cycle, and none is missing.
pub record Watched (g : LockGraph) : Type 0 where
  pub counted : g.cycle_count ≡ length g.reported
  pub complete : g.cycle_count ≡ 0 → Acyclic g.edges
  pub sound : 0 < g.cycle_count → HasCycle g.edges

record Warned (g g' : LockGraph) : Type 0 where
  same : g'.edges ≡ g.edges
  counts : g'.cycle_count ≡ length g'.reported
  some_one : 0 < g'.cycle_count

some_reported :
    (j k : String) (xs : List String) → (contains j xs || contains k xs) ≡ true → 0 < length xs
unfolding contains
some_reported j k [] h = cc
some_reported j k (x ∷ xs) h = omega arith

warn_cycle-Warned :
    (a b : String) (g : LockGraph) → g.cycle_count ≡ length g.reported → Warned g (warn_cycle a b g)
unfolding warn_cycle
warn_cycle-Warned a b g h =
    let there = contains (pair_key a b) g.reported || contains (pair_key b a) g.reported in
    elim (Bool-cases there) [
      | inl e ↦ rw e (record {
        same = refl;
        counts = h;
        some_one = omega (arith, some_reported (pair_key a b) (pair_key b a) g.reported e);
      })
      | inr e ↦ rw e (record { same = refl; counts = omega arith; some_one = omega arith })
    ]

module _ (name held : String) (g : LockGraph) (w : Watched g) where
  abbrev with_edge : LockGraph
  with_edge = record g { edges = add_edge held name g.edges }

  warned_Watched :
      reachable name held (add_edge held name g.edges) ≡ true
      → Watched (warn_cycle held name with_edge)
  warned_Watched r =
      let v = warn_cycle-Warned held name with_edge w.counted in
      let back = (reachable-Leads name held (add_edge held name g.edges)).0 r in
      record {
        counted = v.counts;
        complete = λ z. absurd (omega (arith, v.some_one));
        sound =
            λ _. subst HasCycle (sym v.same) (held, name, add_edge_self held name g.edges, back);
      }

  unwarned_Watched : reachable name held (add_edge held name g.edges) ≡ false → Watched with_edge
  unwarned_Watched r = record {
    counted = w.counted;
    complete = λ z. Acyclic-add_edge held name g.edges (w.complete z) (λ l.
        let found = (reachable-Leads name held (add_edge held name g.edges)).1 l in
        absurd (ground (arith, found, r)));
    sound = λ h.
        let (a, b, e, l) = w.sound h in
        (a, b, Edge-add_edge held name g.edges a b e, Leads-add_edge held name l);
  }

enter_one-Watched :
    (name held : String) (g : LockGraph) → Watched g → Watched (enter_one name held g)
unfolding enter_one
enter_one-Watched name held g w = elim (string_discrete held name) [
  | yes p ↦ rw (if_pos (string_discrete held name) p) w
  | no n ↦
      rw (if_neg (string_discrete held name) n)
        (elim (Bool-cases (reachable name held (add_edge held name g.edges))) [
          | inl r ↦ rw r (warned_Watched name held g w r)
          | inr r ↦ rw r (unwarned_Watched name held g w r)
        ])
]

enter_all-Watched :
    (name : String) (hs : List String) (g : LockGraph) → Watched g → Watched (enter_all name hs g)
unfolding enter_all
enter_all-Watched name [] g w = w
enter_all-Watched name (held ∷ hs) g w =
    enter_all-Watched name hs (enter_one name held g) (enter_one-Watched name held g w)

-- The calls that the instrumented locks make, in any order, since the package started or was reset.
pub data LockRun : LockGraph → Type 0 where
  started : LockRun reset_graph
  enters : {g : LockGraph} (goid name : String) → LockRun g → LockRun (enter_acquire goid name g)
  holds : {g : LockGraph} (goid name : String) → LockRun g → LockRun (mark_held goid name g)
  lets_go : {g : LockGraph} (goid name : String) → LockRun g → LockRun (mark_released goid name g)

hold_only-Watched :
    (goid : String) (left : List String) (g : LockGraph)
    → Watched g
    → Watched (hold_only goid left g)
unfolding hold_only
hold_only-Watched goid [] g w = record {
  counted = w.counted;
  complete = w.complete;
  sound = w.sound;
}
hold_only-Watched goid (x ∷ xs) g w = record {
  counted = w.counted;
  complete = w.complete;
  sound = w.sound;
}

reset_graph-Watched : Watched reset_graph
unfolding reset_graph lookup contains
reset_graph-Watched = record {
  counted = refl;
  complete = λ _ a b e l. cc;
  sound = λ h. absurd (omega arith);
}

LockRun-Watched : {g : LockGraph} → LockRun g → Watched g
unfolding enter_acquire mark_held mark_released
LockRun-Watched started = reset_graph-Watched
LockRun-Watched (enters {g} goid name run) =
    enter_all-Watched name (lookup_or goid [] g.held_by) g (LockRun-Watched run)
LockRun-Watched (holds goid name run) =
    let w = LockRun-Watched run in
    record { counted = w.counted; complete = w.complete; sound = w.sound }
LockRun-Watched (lets_go {g} goid name run) =
    hold_only-Watched goid (remove_last name (lookup_or goid [] g.held_by)) g (LockRun-Watched run)

-- In any run of the calls: a warning was counted exactly when the orders in which locks were acquired
-- have a cycle.
pub LockRun-cycle_count : {g : LockGraph} → LockRun g → (g.cycle_count ≡ 0) ↔ Acyclic g.edges
LockRun-cycle_count {g} run =
    let w = LockRun-Watched run in
    (
      w.complete,
      λ acyclic. elim (dec_lt 0 g.cycle_count) [
        | yes h ↦ let (a, b, e, l) = w.sound h in absurd (acyclic a b e l)
        | no n ↦ omega arith
      ],
    )
