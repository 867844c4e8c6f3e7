-- ===== src/Scheduler/Lease/Bounds.antt =====
-- The order of a lease's offsets, through resetLeaseLocked, grantLocked and RenewLease.
use distributed_image_proces.Prelude.{
  Bool, false, ℕ, ◌+◌, ◌≤◌, ◌<◌, ◌≡◌, true, ℤ, pos, negsuc, pos_part, is_neg, int64_max, arith,
}
use distributed_image_proces.Scheduler.Job.{Task, RenewLeaseRequest}
use distributed_image_proces.Scheduler.Lease.{reset_lease, grant, reported, renew}

-- `n` lies within a range's end: below it, if it is known.
abbrev pub WithinEnd : ℕ → ℤ → Type 0
WithinEnd n (pos e) = n ≤ e
WithinEnd n (negsuc _) = Unit

-- A range that was split has a known end, and `g` does not pass it.
abbrev pub SplitWithin : Bool → ℕ → ℤ → Type 0
SplitWithin false g end = Unit
SplitWithin true g (pos e) = g ≤ e
SplitWithin true g (negsuc _) = ⊥

-- The lease is in order: start, frontier, granted, and the frontier within a known end. The end bounds
-- the grant once the range was split: before that, a first report of the size can set the end below
-- the grant. A range with no known end starts at 0.
pub record LeaseOrdered (t : Task) : Type 0 where
  pub start_frontier : t.range_start ≤ t.frontier
  pub frontier_granted : t.frontier ≤ t.granted
  pub frontier_end : WithinEnd t.frontier t.range_end
  pub start_unknown : is_neg t.range_end ≡ true → t.range_start ≡ 0
  pub granted_split : SplitWithin t.split t.granted t.range_end

pub reset_lease-LeaseOrdered : (t : Task) → LeaseOrdered t → LeaseOrdered (reset_lease t)
unfolding reset_lease
reset_lease-LeaseOrdered t h = ground arith

pub grant-LeaseOrdered : (chunk : ℕ) (t : Task) → LeaseOrdered t → LeaseOrdered (grant chunk t)
unfolding grant
grant-LeaseOrdered chunk t h = ground arith

record Reported (t : Task) : Type 0 where
  start_frontier : t.range_start ≤ t.frontier
  frontier_end : WithinEnd t.frontier t.range_end
  granted_split : SplitWithin t.split t.granted t.range_end
  start_unknown : is_neg t.range_end ≡ true → t.range_start ≡ 0

reported-Reported :
    (req : RenewLeaseRequest) (t : Task) → LeaseOrdered t → Reported (reported req t)
unfolding reported
reported-Reported req t h = ground arith

grant-of_Reported :
    (chunk : ℕ) (t : Task)
    → 0 < chunk
    → t.frontier + chunk < int64_max
    → Reported t
    → LeaseOrdered (grant chunk t)
unfolding grant
grant-of_Reported chunk t h k r = ground arith

-- The frontier that a report and the lease together can reach.
abbrev pub NoOverflow : ℕ → RenewLeaseRequest → Task → Type 0
NoOverflow chunk req t =
    (t.frontier + chunk < int64_max) × (pos_part req.frontier + chunk < int64_max)

reported-frontier-NoOverflow :
    (chunk : ℕ) (req : RenewLeaseRequest) (t : Task)
    → NoOverflow chunk req t
    → (reported req t).frontier + chunk < int64_max
unfolding reported
reported-frontier-NoOverflow chunk req t h = ground arith

-- A renewal leaves the lease in order, whatever the worker reports.
pub renew-LeaseOrdered :
    (chunk : ℕ) (req : RenewLeaseRequest) (t : Task)
    → 0 < chunk
    → NoOverflow chunk req t
    → LeaseOrdered t
    → LeaseOrdered (renew chunk req t)
unfolding renew
renew-LeaseOrdered chunk req t pos_chunk small h =
    grant-of_Reported chunk (reported req t) pos_chunk
      (reported-frontier-NoOverflow chunk req t small) (reported-Reported req t h)
