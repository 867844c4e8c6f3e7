-- ===== src/Scheduler/Lease/Progress.antt =====
-- What a renewal moves.
use distributed_image_proces.Prelude.{ℕ, ◌≤◌, ◌<◌, ◌≡◌, ◌∙◌, pos, negsuc, int64_max, arith}
use distributed_image_proces.Scheduler.Job.{Task, RenewLeaseRequest}
use distributed_image_proces.Scheduler.Lease.{grant, reported, renew}
use distributed_image_proces.Scheduler.Lease.Bounds.{LeaseOrdered}

-- The later state `u` of a task `t` whose range ends at `e`.
pub record MovedOn (e : ℕ) (t u : Task) : Type 0 where
  pub frontier_on : t.frontier ≤ u.frontier
  pub granted_on : t.granted ≤ u.granted
  pub granted_end : u.granted ≤ e
  pub same_end : u.range_end ≡ pos e
  pub same_start : u.range_start ≡ t.range_start
  pub same_generation : u.generation ≡ t.generation

reported-MovedOn :
    (req : RenewLeaseRequest) (t : Task) (e : ℕ)
    → LeaseOrdered t
    → t.range_end ≡ pos e
    → t.granted ≤ e
    → MovedOn e t (reported req t)
unfolding reported
reported-MovedOn req t e h known within = ground arith

grant-MovedOn :
    (chunk : ℕ) (t : Task) (e : ℕ)
    → t.range_end ≡ pos e
    → t.granted ≤ e
    → MovedOn e t (grant chunk t)
unfolding grant
grant-MovedOn chunk t e known within = ground arith

-- When the lease is in order, its end is known to be `e` and the grant lies within it, a renewal moves
-- neither the frontier nor the grant backwards, keeps the grant within the end, and keeps the
-- start, the end and the generation.
pub renew-MovedOn :
    (chunk : ℕ) (req : RenewLeaseRequest) (t : Task) (e : ℕ)
    → LeaseOrdered t
    → t.range_end ≡ pos e
    → t.granted ≤ e
    → MovedOn e t (renew chunk req t)
unfolding renew
renew-MovedOn chunk req t e h known within =
    let r : MovedOn e t (reported req t) = reported-MovedOn req t e h known within in
    let g : MovedOn e (reported req t) (grant chunk (reported req t)) =
      grant-MovedOn chunk (reported req t) e r.same_end r.granted_end in
    record {
      frontier_on = omega arith;
      granted_on = omega arith;
      granted_end = g.granted_end;
      same_end = g.same_end;
      same_start = g.same_start ∙ r.same_start;
      same_generation = g.same_generation ∙ r.same_generation;
    }

-- The first report of a shard shorter than the chunk leaves the grant past the end of the range.
pub renew_overshoots :
    (chunk total : ℕ) (req : RenewLeaseRequest) (t : Task)
    → t.range_end ≡ negsuc 0
    → t.frontier ≡ 0
    → t.granted ≡ 0
    → 0 < total
    → total < chunk
    → chunk < int64_max
    → req.total ≡ pos total
    → let u = renew chunk req (grant chunk t) in (u.range_end ≡ pos total) × (u.granted ≡ chunk)
unfolding renew grant
renew_overshoots chunk total req t a b c d e f g = ground arith
