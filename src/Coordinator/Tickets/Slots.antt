-- ===== src/Coordinator/Tickets/Slots.antt =====
-- The slots of the admission controller and the tickets that stand for them.
use distributed_image_proces.Prelude.{
  sum_map-delete, subst, ℕ, ◌+◌, ◌-◌, ◌<◌, String, ◌≡◌, refl, sym, ap, ◌∙◌, inl, inr, ite, if_pos,
  if_neg, false, none, some, List, [], ◌∷◌, arith, ltb, Bool-cases, Option-cases, string_discrete,
  lookup, insert, delete, lookup_or, lookup-insert, sum_map, at_key, sum_map-insert, Distinct,
  insert-Distinct, delete-Distinct, AllEntries, insert-AllEntries, AllEntries-lookup,
}
use distributed_image_proces.Admission.{
  Controller, Ticket, held, reserve, give_back, admit, release, ticket, reject, Denial, denied,
  no_class, share, at_share, at_capacity,
}
use distributed_image_proces.Coordinator.Tickets.{
  Front, begin_request, abandon_request, finish_request, tenant_of, track_ticket, release_ticket,
  FrontStep, enable_admission, begins, FrontSteps, abandons, no_step, then_step, finishes, ends,
}

-- A ticket of the tenant counts one.
abbrev pub one : String → Ticket → ℕ
one x t = ite (string_discrete x t.tenant) 1 0

abbrev pub Live : String → Ticket → Type 0
Live k t = t.once ≡ false

-- What each tenant holds is the number of its tickets, at the coordinator and at requests, the total
-- is the number of all tickets, and none of them was released.
pub record Accounted (s : Front) : Type 0 where
  pub per_tenant :
      (x : String) → held x s.admission ≡ sum_map (one x) s.tickets + sum_map (one x) s.requests
  pub in_all : s.admission.total ≡ sum_map (λ t. 1) s.tickets + sum_map (λ t. 1) s.requests
  pub tickets_once : Distinct s.tickets
  pub requests_once : Distinct s.requests
  pub tickets_live : AllEntries Live s.tickets
  pub requests_live : AllEntries Live s.requests

held-reserve_any :
    (x tenant : String) (c : Controller)
    → held x (reserve tenant c) ≡ held x c + ite (string_discrete x tenant) 1 0
unfolding reserve held
held-reserve_any x tenant c = ground (arith, lookup-insert x tenant (held tenant c + 1) c.inflight)

held-give_back_any :
    (x tenant : String) (c : Controller)
    → 0 < held tenant c
    → held x (give_back tenant c) + ite (string_discrete x tenant) 1 0 ≡ held x c
unfolding give_back held
held-give_back_any x tenant c h =
    ground (arith, lookup-insert x tenant (held tenant c - 1) c.inflight)

total-give_back :
    (tenant : String) (c : Controller)
    → 0 < held tenant c
    → (give_back tenant c).total ≡ c.total - 1
unfolding give_back
total-give_back tenant c h = ground arith

-- The entry of a key, in the two sums.
at_key-some :
    {V : Type 0} (f : V → ℕ) (k : String) (v : V) (m : List (String × V))
    → lookup k m ≡ some v
    → at_key f k m ≡ f v
at_key-some f k v m e = rw (e, at_key)

delete-AllEntries :
    {V : Type 0} (P : String → V → Type 0) (k : String) (m : List (String × V))
    → AllEntries P m
    → AllEntries P (delete k m)
unfolding delete
delete-AllEntries P k [] a = tt
delete-AllEntries P k ((j, w) ∷ m) a = elim (string_discrete k j) [
  | yes e ↦ rw (if_pos (string_discrete k j) e) (delete-AllEntries P k m a.1)
  | no n ↦ rw (if_neg (string_discrete k j) n) (a.0, delete-AllEntries P k m a.1)
]

one_self : (t : Ticket) → one t.tenant t ≡ 1
one_self t = if_pos (string_discrete t.tenant t.tenant) refl 1 0

-- A denial leaves the slots alone, and an admission takes one.
data Admits (tenant : String) (c : Controller) : Type 0 where
  admits : admit tenant c ≡ (ticket tenant, reserve tenant c) → Admits tenant c
  denies :
      (d : Denial) (c' : Controller)
      → admit tenant c ≡ (denied d, c')
      → c'.inflight ≡ c.inflight
      → c'.total ≡ c.total
      → Admits tenant c

admit-Admits : (tenant : String) (c : Controller) → Admits tenant c
unfolding admit reject
admit-Admits tenant c = elim (Option-cases (lookup tenant c.classes)) [
  | inl e ↦ denies no_class (reject c) (rw (admit, e)) refl refl
  | inr (w, e) ↦ elim (Bool-cases (ltb (share w c) (held tenant c + 1))) [
    | inl f ↦ denies at_share (reject c) (rw (admit, e, f)) refl refl
    | inr f ↦ elim (Bool-cases (ltb c.max_in_flight (c.total + 1))) [
      | inl g ↦ denies at_capacity (reject c) (rw (admit, e, f, g)) refl refl
      | inr g ↦ admits (rw (admit, e, f, g))
    ]
  ]
]

begin_request-admits :
    (request header : String) (s : Front)
    → admit (tenant_of header) s.admission
      ≡ (ticket (tenant_of header), reserve (tenant_of header) s.admission)
    → begin_request request header s ≡ record s {
      admission = reserve (tenant_of header) s.admission;
      requests = insert request (record { tenant = tenant_of header; once = false }) s.requests;
    }
unfolding begin_request
begin_request-admits request header s e =
    let after : (admit (tenant_of header) s.admission).1 ≡ reserve (tenant_of header) s.admission =
      ap (λ r. r.1) e in
    rw (begin_request, e, after)

begin_request-denies :
    (request header : String) (s : Front) (d : Denial) (c' : Controller)
    → admit (tenant_of header) s.admission ≡ (denied d, c')
    → begin_request request header s ≡ record s { admission = c' }
unfolding begin_request
begin_request-denies request header s d c' e =
    let after : (admit (tenant_of header) s.admission).1 ≡ c' = ap (λ r. r.1) e in
    rw (begin_request, e, after)

-- An entry under a new key adds its share to a sum.
sum_map-insert_new :
    {V : Type 0} (f : V → ℕ) (k : String) (v : V) (m : List (String × V))
    → lookup k m ≡ none
    → sum_map f (insert k v m) ≡ sum_map f m + f v
sum_map-insert_new f k v m e =
    let absent : at_key f k m ≡ 0 = rw (e, at_key) in omega (arith, sum_map-insert f k v m)

reserve-total : (tenant : String) (c : Controller) → (reserve tenant c).total ≡ c.total + 1
unfolding reserve
reserve-total tenant c = refl

begin_request-Accounted :
    (request header : String) (s : Front)
    → lookup request s.requests ≡ none
    → Accounted s
    → Accounted (begin_request request header s)
unfolding held
begin_request-Accounted request header s fresh a =
    let tenant = tenant_of header in
    elim (admit-Admits tenant s.admission) [
      | admits e ↦
          let t : Ticket = record { tenant = tenant; once = false } in
          subst Accounted (sym (begin_request-admits request header s e)) (record {
            per_tenant = λ x. omega (
              arith,
              a.per_tenant x,
              held-reserve_any x tenant s.admission,
              sum_map-insert_new (one x) request t s.requests fresh,
            );
            in_all = omega (
              arith,
              a.in_all,
              reserve-total tenant s.admission,
              sum_map-insert_new (λ _. 1) request t s.requests fresh,
            );
            tickets_once = a.tickets_once;
            requests_once = insert-Distinct request t s.requests a.requests_once;
            tickets_live = a.tickets_live;
            requests_live = insert-AllEntries Live request t s.requests refl a.requests_live;
          })
      | denies d c' e i n ↦
          subst Accounted (sym (begin_request-denies request header s d c' e)) (record {
            per_tenant = λ x. ap (λ m. lookup_or x 0 m) i ∙ a.per_tenant x;
            in_all = n ∙ a.in_all;
            tickets_once = a.tickets_once;
            requests_once = a.requests_once;
            tickets_live = a.tickets_live;
            requests_live = a.requests_live;
          })
    ]

-- The slot of a live ticket that stands in a map is there to give back.
release-live :
    (t : Ticket) (c : Controller) → t.once ≡ false → (release t c).1 ≡ give_back t.tenant c
unfolding release
release-live t c h = rw (release, h)

sum_map-delete_found :
    {V : Type 0} (f : V → ℕ) (k : String) (v : V) (m : List (String × V))
    → Distinct m
    → lookup k m ≡ some v
    → sum_map f (delete k m) + f v ≡ sum_map f m
sum_map-delete_found f k v m d e = omega (arith, sum_map-delete f k m d, at_key-some f k v m e)

sum_map-delete_absent :
    {V : Type 0} (f : V → ℕ) (k : String) (m : List (String × V))
    → Distinct m
    → lookup k m ≡ none
    → sum_map f (delete k m) ≡ sum_map f m
sum_map-delete_absent f k m d e =
    let absent : at_key f k m ≡ 0 = rw (e, at_key) in omega (arith, sum_map-delete f k m d)

abandon_request-Accounted :
    (request : String) (t : Ticket) (s : Front)
    → lookup request s.requests ≡ some t
    → Accounted s
    → Accounted (abandon_request request t s)
unfolding abandon_request
abandon_request-Accounted request t s e a =
    let live = AllEntries-lookup Live request t s.requests a.requests_live e in
    let gone = λ (f : Ticket → ℕ). sum_map-delete_found f request t s.requests a.requests_once e in
    let owned : 0 < held t.tenant s.admission =
      omega (arith, a.per_tenant t.tenant, gone (one t.tenant), one_self t) in
    rw (release-live t s.admission live) (record {
      per_tenant = λ x.
          omega
            (arith, a.per_tenant x, held-give_back_any x t.tenant s.admission owned, gone (one x));
      in_all = omega (arith, a.in_all, total-give_back t.tenant s.admission owned, gone (λ _. 1));
      tickets_once = a.tickets_once;
      requests_once = delete-Distinct request s.requests a.requests_once;
      tickets_live = a.tickets_live;
      requests_live = delete-AllEntries Live request s.requests a.requests_live;
    })

finish_request-Accounted :
    (request job_id : String) (t : Ticket) (s : Front)
    → lookup request s.requests ≡ some t
    → lookup job_id s.tickets ≡ none
    → Accounted s
    → Accounted (finish_request request job_id t s)
unfolding finish_request track_ticket
finish_request-Accounted request job_id t s e fresh a =
    let live = AllEntries-lookup Live request t s.requests a.requests_live e in
    let gone = λ (f : Ticket → ℕ). sum_map-delete_found f request t s.requests a.requests_once e in
    let come = λ (f : Ticket → ℕ). sum_map-insert_new f job_id t s.tickets fresh in
    record {
      per_tenant = λ x. omega (arith, a.per_tenant x, gone (one x), come (one x));
      in_all = omega (arith, a.in_all, gone (λ _. 1), come (λ _. 1));
      tickets_once = insert-Distinct job_id t s.tickets a.tickets_once;
      requests_once = delete-Distinct request s.requests a.requests_once;
      tickets_live = insert-AllEntries Live job_id t s.tickets live a.tickets_live;
      requests_live = delete-AllEntries Live request s.requests a.requests_live;
    }

release_ticket-Accounted :
    (job_id : String) (s : Front) → Accounted s → Accounted (release_ticket job_id s)
unfolding release_ticket
release_ticket-Accounted job_id s a = elim (Option-cases (lookup job_id s.tickets)) [
  | inl e ↦
      let same : release_ticket job_id s ≡ record s { tickets = delete job_id s.tickets } =
        rw (release_ticket, e) in
      let gone = λ (f : Ticket → ℕ). sum_map-delete_absent f job_id s.tickets a.tickets_once e in
      subst Accounted (sym same) (record {
        per_tenant = λ x. omega (arith, a.per_tenant x, gone (one x));
        in_all = omega (arith, a.in_all, gone (λ _. 1));
        tickets_once = delete-Distinct job_id s.tickets a.tickets_once;
        requests_once = a.requests_once;
        tickets_live = delete-AllEntries Live job_id s.tickets a.tickets_live;
        requests_live = a.requests_live;
      })
  | inr (t, e) ↦
      let live = AllEntries-lookup Live job_id t s.tickets a.tickets_live e in
      let same : release_ticket job_id s ≡ record s {
        admission = give_back t.tenant s.admission;
        tickets = delete job_id s.tickets;
      } =
        rw (release_ticket, e, release-live t s.admission live) in
      let gone = λ (f : Ticket → ℕ). sum_map-delete_found f job_id t s.tickets a.tickets_once e in
      let owned : 0 < held t.tenant s.admission =
        omega (arith, a.per_tenant t.tenant, gone (one t.tenant), one_self t) in
      subst Accounted (sym same) (record {
        per_tenant = λ x.
            omega (
              arith,
              a.per_tenant x,
              held-give_back_any x t.tenant s.admission owned,
              gone (one x),
            );
        in_all = omega (arith, a.in_all, total-give_back t.tenant s.admission owned, gone (λ _. 1));
        tickets_once = delete-Distinct job_id s.tickets a.tickets_once;
        requests_once = a.requests_once;
        tickets_live = delete-AllEntries Live job_id s.tickets a.tickets_live;
        requests_live = a.requests_live;
      })
]

FrontStep-Accounted : {s t : Front} → FrontStep s t → Accounted s → Accounted t
FrontStep-Accounted (begins {s} request header fresh) a =
    begin_request-Accounted request header s fresh a
FrontStep-Accounted (abandons {s} request t e) a = abandon_request-Accounted request t s e a
FrontStep-Accounted (finishes {s} request job_id t e fresh) a =
    finish_request-Accounted request job_id t s e fresh a
FrontStep-Accounted (ends {s} job_id) a = release_ticket-Accounted job_id s a

-- However requests and finished jobs interleave, from a controller with no slot taken: each slot
-- belongs to one ticket that was not released, which a request holds or the coordinator keeps for a
-- job, tenant by tenant and in all.
pub FrontSteps-Accounted :
    {t : Front} (c : Controller)
    → c.inflight ≡ []
    → c.total ≡ 0
    → FrontSteps (enable_admission c) t
    → Accounted t
unfolding enable_admission held lookup
FrontSteps-Accounted c i n no_step = record {
  per_tenant = λ x. ap (λ m. lookup_or x 0 m) i;
  in_all = n;
  tickets_once = tt;
  requests_once = tt;
  tickets_live = tt;
  requests_live = tt;
}
FrontSteps-Accounted c i n (then_step steps step) =
    FrontStep-Accounted step (FrontSteps-Accounted c i n steps)
