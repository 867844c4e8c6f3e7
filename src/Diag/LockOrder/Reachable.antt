-- ===== src/Diag/LockOrder/Reachable.antt =====
-- The search and the paths of edges.
use distributed_image_proces.Prelude.{
  ℕ, zero, suc, ◌+◌, ◌<◌, String, ◌≡◌, ◌↔◌, refl, sym, ◌∙◌, ◌⊎◌, inl, inr, if_pos, if_neg, true,
  false, Bool, Option, none, some, List, [], ◌∷◌, ◌++◌, arith, subst, string_discrete, length,
  length-append, lookup, Bool-cases, Option-cases,
}
use distributed_image_proces.Cache.Ids.{contains}
use distributed_image_proces.Diag.LockOrder.{
  Edges, next_of, visit, search_from, edge_count, reachable,
}
use distributed_image_proces.Diag.LockOrder.Visits.{
  unseen, Outcome, Visited, visit-Outcome, contains_cons, contains_tail, contains_head,
}

abbrev pub Edge : Edges → String → String → Type 0
Edge es a b = contains b (next_of a es) ≡ true

pub data Leads (es : Edges) : String → String → Type 0 where
  stays : {a b : String} → a ≡ b → Leads es a b
  goes : {a b c : String} → Edge es a b → Leads es b c → Leads es a c

pub Leads-Leads : {es : Edges} {a b c : String} → Leads es a b → Leads es b c → Leads es a c
Leads-Leads {es} {c = c} (stays p) q = subst (λ x. Leads es x c) (sym p) q
Leads-Leads (goes e p) q = goes e (Leads-Leads p q)

-- The ends of all edges.
abbrev targets : Edges → List String
targets [] = []
targets ((k, tos) ∷ es) = tos ++ targets es

length-targets : (es : Edges) → length (targets es) ≡ edge_count es
length-targets [] = refl
length-targets ((k, tos) ∷ es) = omega (arith, length-append tos (targets es), length-targets es)

contains-append_left :
    (m : String) (xs ys : List String) → contains m xs ≡ true → contains m (xs ++ ys) ≡ true
unfolding contains
contains-append_left m [] ys h = cc
contains-append_left m (x ∷ xs) ys h = ground (arith, contains-append_left m xs ys)

contains-append_right :
    (m : String) (xs ys : List String) → contains m ys ≡ true → contains m (xs ++ ys) ≡ true
unfolding contains
contains-append_right m [] ys h = h
contains-append_right m (x ∷ xs) ys h = ground (arith, contains-append_right m xs ys)

Edge-cons :
    (k : String) (tos : List String) (es : Edges) (a b : String)
    → Edge ((k, tos) ∷ es) a b
    → (contains b tos ≡ true) ⊎ Edge es a b
unfolding lookup
Edge-cons k tos es a b e = ground arith

Edge-targets : (es : Edges) (a b : String) → Edge es a b → contains b (targets es) ≡ true
unfolding lookup contains
Edge-targets [] a b e = cc
Edge-targets ((k, tos) ∷ es) a b e = elim (Edge-cons k tos es a b e) [
  | inl h ↦ contains-append_left b tos (targets es) h
  | inr h ↦ contains-append_right b tos (targets es) (Edge-targets es a b h)
]

unseen-le-length : (seen all : List String) → unseen seen all < length all + 1
unseen-le-length seen [] = omega arith
unseen-le-length seen (t ∷ all) = ground (arith, unseen-le-length seen all)

-- What is left of the outer loop after a turn.
abbrev after_visit : ℕ → String → Edges → Option (List String × List String) → Bool
after_visit fuel to es none = true
after_visit fuel to es (some (seen', stack')) = search_from fuel to es seen' stack'

search_from-cons :
    (fuel : ℕ) (to n : String) (es : Edges) (seen stack : List String)
    → search_from (suc fuel) to es seen (n ∷ stack)
      ≡ after_visit fuel to es (visit to (next_of n es) seen stack)
unfolding search_from
search_from-cons fuel to n es seen stack =
    elim (Option-cases (visit to (next_of n es) seen stack)) [
      | inl e ↦ rw (e, search_from) refl
      | inr (r, e) ↦ rw (e, search_from) refl
    ]

-- What the loop finds on its way leads from the start.
search_from-Leads :
    (from to : String) (es : Edges) (fuel : ℕ) (seen stack : List String)
    → ((m : String) → contains m stack ≡ true → Leads es from m)
    → search_from fuel to es seen stack ≡ true
    → Leads es from to
unfolding search_from
search_from-Leads from to es zero seen stack reach h = cc
search_from-Leads from to es (suc fuel) seen [] reach h = cc
search_from-Leads from to es (suc fuel) seen (n ∷ stack) reach h =
    visited_leads (visit to (next_of n es) seen stack) (visit-Outcome to (next_of n es) seen stack)
      (search_from-Leads from to es fuel) (sym (search_from-cons fuel to n es seen stack) ∙ h)
  where
    here : (m : String) → Edge es n m → Leads es from m
    here m e = Leads-Leads (reach n (contains_head n stack)) (goes e (stays refl))

    visited_leads :
        (r : Option (List String × List String))
        → Outcome to (next_of n es) seen stack r
        → ((seen' stack' : List String)
            → ((m : String) → contains m stack' ≡ true → Leads es from m)
            → search_from fuel to es seen' stack' ≡ true
            → Leads es from to)
        → after_visit fuel to es r ≡ true
        → Leads es from to
    visited_leads none o later g = here to o
    visited_leads (some (seen', stack')) v later g =
        later seen' stack'
          (λ m c. elim (v.only m c) [
            | inl a ↦ reach m (contains_tail m n stack a)
            | inr e ↦ here m e
          ])
          g

-- On the way of the loop: what follows a name that was seen and is no longer on the stack is seen,
-- and the name that is looked for is not.
record Closing (to : String) (es : Edges) (seen stack : List String) : Type 0 where
  met :
      (n : String)
      → contains n seen ≡ true
      → (contains n stack ≡ true) ⊎ ((m : String) → Edge es n m → contains m seen ≡ true)
  apart : contains to seen ≡ false

nil_empty : (n : String) → contains n [] ≡ true → ⊥
unfolding contains
nil_empty n h = cc

Visited-Closing :
    (to n : String) (es : Edges) (seen stack seen' stack' : List String)
    → Closing to es seen (n ∷ stack)
    → Visited to (next_of n es) seen stack seen' stack'
    → Closing to es seen' stack'
Visited-Closing to n es seen stack seen' stack' c v = record {
  met = λ k h. elim (v.fresh k h) [
    | inr s ↦ inl s
    | inl s ↦ elim (c.met k s) [
      | inr all ↦ inr (λ m e. v.grows m (all m e))
      | inl s ↦ elim (contains_cons k n stack s) [
        | inr t ↦ inl (v.keeps k t)
        | inl p ↦ inr (λ m e. v.covers m (subst (λ x. Edge es x m) p e))
      ]
    ]
  ];
  apart = elim (Bool-cases (contains to seen')) [
    | inr h ↦ h
    | inl h ↦ elim (v.sees_only to h) [
      | inl s ↦ absurd (ground (arith, s, c.apart))
      | inr e ↦ absurd (ground (arith, e, v.misses))
    ]
  ];
}

-- Nothing leads out of a closed set.
closed-Leads :
    {es : Edges} {a b : String} (seen : List String)
    → ((n m : String) → contains n seen ≡ true → Edge es n m → contains m seen ≡ true)
    → Leads es a b
    → contains a seen ≡ true
    → contains b seen ≡ true
closed-Leads seen closed (stays p) h = subst (λ x. contains x seen ≡ true) p h
closed-Leads seen closed (goes {a} {b} e p) h = closed-Leads seen closed p (closed a b h e)

-- A loop that ends without the name has seen all that its start leads to.
search_from_complete :
    (to : String) (es : Edges) (fuel : ℕ) (a : String) (seen stack : List String)
    → unseen seen (targets es) + length stack < fuel
    → Closing to es seen stack
    → contains a seen ≡ true
    → search_from fuel to es seen stack ≡ false
    → Leads es a to
    → ⊥
unfolding search_from
search_from_complete to es zero a seen stack enough c s h l = absurd (omega arith)
search_from_complete to es (suc fuel) a seen [] enough c s h l =
    let all_seen =
      closed-Leads seen
        (λ n m k e. elim (c.met n k) [ inl x ↦ absurd (nil_empty n x) | inr f ↦ f m e ]) l s in
    absurd (ground (arith, all_seen, c.apart))
search_from_complete to es (suc fuel) a seen (n ∷ stack) enough c s h l =
    visited_complete (visit to (next_of n es) seen stack)
      (visit-Outcome to (next_of n es) seen stack) (search_from_complete to es fuel a)
      (sym (search_from-cons fuel to n es seen stack) ∙ h)
  where
    visited_complete :
        (r : Option (List String × List String))
        → Outcome to (next_of n es) seen stack r
        → ((seen' stack' : List String)
            → unseen seen' (targets es) + length stack' < fuel
            → Closing to es seen' stack'
            → contains a seen' ≡ true
            → search_from fuel to es seen' stack' ≡ false
            → Leads es a to
            → ⊥)
        → after_visit fuel to es r ≡ false
        → ⊥
    visited_complete none o later g = cc
    visited_complete (some (seen', stack')) v later g =
        later seen' stack' (omega (arith, v.costs (targets es) (λ m e. Edge-targets es n m e)))
          (Visited-Closing to n es seen stack seen' stack' c v) (v.grows a s) g l

start-Closing :
    (from to : String) (es : Edges) → ¬ (from ≡ to) → Closing to es (from ∷ []) (from ∷ [])
unfolding contains
start-Closing from to es n = record {
  met = λ k h. inl h;
  apart = if_neg (string_discrete to from) (λ p. n (sym p)) true false;
}

-- reachableLocked answers true exactly when a path of edges leads from the one name to the other.
pub reachable-Leads :
    (from to : String) (es : Edges) → (reachable from to es ≡ true) ↔ Leads es from to
unfolding reachable
reachable-Leads from to es = elim (string_discrete from to) [
  | yes p ↦ (λ h. stays p, λ l. rw (if_pos (string_discrete from to) p) refl)
  | no n ↦
      let fuel = edge_count es + 2 in
      let same : reachable from to es ≡ search_from fuel to es (from ∷ []) (from ∷ []) =
        if_neg (string_discrete from to) n true (search_from fuel to es (from ∷ []) (from ∷ [])) in
      (
        λ h.
            search_from-Leads from to es fuel (from ∷ []) (from ∷ [])
              (λ m c. elim (contains_cons m from [] c) [
                | inl p ↦ stays (sym p)
                | inr x ↦ absurd (nil_empty m x)
              ])
              (sym same ∙ h),
        λ l. elim (Bool-cases (reachable from to es)) [
          | inl h ↦ h
          | inr h ↦ absurd (
              search_from_complete to es fuel from (from ∷ []) (from ∷ [])
                (omega (arith, unseen-le-length (from ∷ []) (targets es), length-targets es))
                (start-Closing from to es n) (contains_head from []) (sym same ∙ h) l)
        ],
      )
]
