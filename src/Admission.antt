-- ===== src/Admission.antt =====
-- internal/admission/controller.go: the bounded admission controller. Counters are left unbounded,
-- and the mutex is left out: each method is one step.
pub mod Capacity
pub mod Accounting
mod Tests
use distributed_image_proces.Prelude.{
  ℕ, ◌+◌, ◌-◌, ◌*◌, ◌/◌, String, Bool, true, none, some, List, [], ltb, ◌==◌, if◌then◌else◌, lookup,
  insert, lookup_or, ℤ, pos, pos_part, ltb_ℤ,
}

pub record Controller : Type 0 where
  pub max_in_flight : ℕ
  -- The weight of each tenant's Class, its one field.
  pub classes : List (String × ℕ)
  pub total_weight : ℕ
  pub inflight : List (String × ℕ)
  pub total : ℕ
  pub admitted : ℕ
  pub rejected : ℕ

-- New; the configured ceiling may be zero or negative.
unfoldable pub new : ℤ → Controller
new max_in_flight = record {
  max_in_flight = if ltb_ℤ max_in_flight (pos 1) then 1 else pos_part max_in_flight;
  classes = [];
  total_weight = 0;
  inflight = [];
  total = 0;
  admitted = 0;
  rejected = 0;
}

-- SetClass; the old weight is 0 where the tenant had no class.
unfoldable pub set_class : String → ℤ → Controller → Controller
set_class tenant weight c =
    let w = if ltb_ℤ weight (pos 1) then 1 else pos_part weight in
    let kept = c.total_weight - lookup_or tenant 0 c.classes in
    record c { classes = insert tenant w c.classes; total_weight = kept + w }

-- shareLocked
unfoldable pub share : ℕ → Controller → ℕ
share weight c =
    if c.total_weight == 0
    then c.max_in_flight
    else (let s = c.max_in_flight * weight / c.total_weight in if ltb s 1 then 1 else s)

-- The reason of a denial, which wraps ErrRejected.
pub data Denial : Type 0 where
  no_class at_share at_capacity : Denial

pub data Verdict : Type 0 where
  ticket : String → Verdict
  denied : Denial → Verdict

-- `c.inflight[tenant]`
unfoldable pub held : String → Controller → ℕ
held tenant c = lookup_or tenant 0 c.inflight

unfoldable pub reject : Controller → Controller
reject c = record c { rejected = c.rejected + 1 }

-- The three increments of an admission.
unfoldable pub reserve : String → Controller → Controller
unfolding held
reserve tenant c = record c {
  inflight = insert tenant (held tenant c + 1) c.inflight;
  total = c.total + 1;
  admitted = c.admitted + 1;
}

-- Admit
unfoldable pub admit : String → Controller → Verdict × Controller
unfolding share held reject reserve
admit tenant c = elim (lookup tenant c.classes) [
  | none ↦ (denied no_class, reject c)
  | some weight ↦
      if ltb (share weight c) (held tenant c + 1)
      then (denied at_share, reject c)
      else if ltb c.max_in_flight (c.total + 1)
      then (denied at_capacity, reject c)
      else (ticket tenant, reserve tenant c)
]

-- The function that a ticket's Once runs.
unfoldable pub give_back : String → Controller → Controller
unfolding held
give_back tenant c =
    if ltb 0 (held tenant c)
    then record c { inflight = insert tenant (held tenant c - 1) c.inflight; total = c.total - 1 }
    else c

-- A ticket with its Once: whether it was released.
pub record Ticket : Type 0 where
  pub tenant : String
  pub once : Bool

-- Release
unfoldable pub release : Ticket → Controller → Ticket × Controller
unfolding give_back
release t c = if t.once then (t, c) else (record t { once = true }, give_back t.tenant c)
