-- ===== src/Admission/Capacity.antt =====
-- The bounds that the controller keeps, and each branch of Admit.
use distributed_image_proces.Prelude.{
  ℕ, ◌+◌, ◌-◌, ◌≤◌, ◌<◌, String, ◌≡◌, inl, inr, List, arith, ltb, if◌then◌else◌, Bool-cases,
  Option-cases, lookup, lookup_or, sum_map, at_key, sum_map-insert, at_key-le-sum_map, ℤ, pos,
  pos_part, ltb_ℤ,
}
use distributed_image_proces.Admission.{
  Controller, held, new, set_class, reserve, admit, give_back, release, reject, Ticket, share,
}

-- The numbers of the controller fit together: what the tenants hold adds up to the total, which is
-- within the ceiling, and the weights add up to the total weight.
pub record Balanced (c : Controller) : Type 0 where
  pub capacity : 0 < c.max_in_flight
  pub total_held : sum_map (λ n. n) c.inflight ≡ c.total
  pub within : c.total ≤ c.max_in_flight
  pub weights : sum_map (λ w. w) c.classes ≡ c.total_weight

lookup_or-at_key :
    (tenant : String) (m : List (String × ℕ)) → lookup_or tenant 0 m ≡ at_key (λ n. n) tenant m
lookup_or-at_key tenant m = elim (Option-cases (lookup tenant m)) [
  | inl e ↦ rw (e, lookup_or, at_key)
  | inr (n, e) ↦ rw (e, lookup_or, at_key)
]

held-at_key : (tenant : String) (c : Controller) → held tenant c ≡ at_key (λ n. n) tenant c.inflight
unfolding held
held-at_key tenant c = lookup_or-at_key tenant c.inflight

pub held-le-total : (tenant : String) (c : Controller) → Balanced c → held tenant c ≤ c.total
held-le-total tenant c b =
    omega (arith, held-at_key tenant c, at_key-le-sum_map (λ n. n) tenant c.inflight, b.total_held)

pub new-Balanced : (m : ℤ) → Balanced (new m)
unfolding new
new-Balanced m = ground arith

pub set_class-Balanced :
    (tenant : String) (weight : ℤ) (c : Controller)
    → Balanced c
    → Balanced (set_class tenant weight c)
unfolding set_class
set_class-Balanced tenant weight c b =
    let w = if ltb_ℤ weight (pos 1) then 1 else pos_part weight in
    record {
      capacity = b.capacity;
      total_held = b.total_held;
      within = b.within;
      weights = ground (
        arith,
        b.weights,
        sum_map-insert (λ n. n) tenant w c.classes,
        at_key-le-sum_map (λ n. n) tenant c.classes,
        lookup_or-at_key tenant c.classes,
      );
    }

reserve-Balanced :
    (tenant : String) (c : Controller)
    → c.total < c.max_in_flight
    → Balanced c
    → Balanced (reserve tenant c)
unfolding reserve
reserve-Balanced tenant c room b = record {
  capacity = b.capacity;
  total_held = omega (
    arith,
    b.total_held,
    held-at_key tenant c,
    sum_map-insert (λ n. n) tenant (held tenant c + 1) c.inflight,
  );
  within = omega arith;
  weights = b.weights;
}

-- Admit keeps the balance on every branch.
pub admit-Balanced : (tenant : String) (c : Controller) → Balanced c → Balanced (admit tenant c).1
unfolding admit reject
admit-Balanced tenant c b = elim (Option-cases (lookup tenant c.classes)) [
  | inl e ↦
      rw (e, admit)
        (record {
          capacity = b.capacity;
          total_held = b.total_held;
          within = b.within;
          weights = b.weights;
        })
  | inr (w, e) ↦ elim (Bool-cases (ltb (share w c) (held tenant c + 1))) [
    | inl f ↦
        rw (e, admit)
          (rw f (record {
            capacity = b.capacity;
            total_held = b.total_held;
            within = b.within;
            weights = b.weights;
          }))
    | inr f ↦ elim (Bool-cases (ltb c.max_in_flight (c.total + 1))) [
      | inl g ↦
          rw (e, admit)
            (rw (f, g)
              (record {
                capacity = b.capacity;
                total_held = b.total_held;
                within = b.within;
                weights = b.weights;
              }))
      | inr g ↦ rw (e, admit) (rw (f, g) (reserve-Balanced tenant c (ground arith) b))
    ]
  ]
]

pub give_back-Balanced :
    (tenant : String) (c : Controller) → Balanced c → Balanced (give_back tenant c)
unfolding give_back
give_back-Balanced tenant c b = elim (Bool-cases (ltb 0 (held tenant c))) [
  | inr h ↦ rw h b
  | inl h ↦ rw h (
      let some_held : 0 < held tenant c = ground arith in
      record {
        capacity = b.capacity;
        total_held = omega (
          arith,
          b.total_held,
          held-at_key tenant c,
          at_key-le-sum_map (λ n. n) tenant c.inflight,
          sum_map-insert (λ n. n) tenant (held tenant c - 1) c.inflight,
        );
        within = omega (arith, b.within);
        weights = b.weights;
      })
]

pub release-Balanced : (t : Ticket) (c : Controller) → Balanced c → Balanced (release t c).1
unfolding release
release-Balanced t c b = elim (Bool-cases t.once) [
  | inl h ↦ rw h b
  | inr h ↦ rw h (give_back-Balanced t.tenant c b)
]
