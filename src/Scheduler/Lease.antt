-- ===== src/Scheduler/Lease.antt =====
-- The lease of one task: resetLeaseLocked, grantLocked and the body of RenewLease in
-- internal/scheduler/scheduler.go.
pub mod Bounds
pub mod Progress
use distributed_image_proces.Prelude.{
  ℕ, ℤ, pos, negsuc, pos_part, is_neg, ltb_ℤ, add_int64, ltb, ◌&&◌, not, Bool, if◌then◌else◌,
}
use distributed_image_proces.Scheduler.Job.{Task, RenewLeaseRequest, LeaseRenewal}

-- resetLeaseLocked
unfoldable pub reset_lease : Task → Task
reset_lease t = record t { frontier = t.range_start; granted = t.range_start }

-- The local `g` of grantLocked: the next chunk's end, never past a known end of the range.
unfoldable pub grant_bound : ℕ → Task → ℤ
grant_bound lease_chunk t =
    let g = add_int64 t.frontier lease_chunk in
    if not (is_neg t.range_end) && ltb_ℤ t.range_end g then t.range_end else g

-- grantLocked, without the diagnostic assertion, which changes no state.
unfoldable pub grant : ℕ → Task → Task
unfolding grant_bound
grant lease_chunk t =
    let g = grant_bound lease_chunk t in
    if ltb_ℤ (pos t.granted) g then record t { granted = pos_part g } else t

-- RenewLease up to the grant: fix the end on the first report, then move the frontier.
unfoldable pub fix_end : RenewLeaseRequest → Task → Task
fix_end req t =
    if is_neg t.range_end && ltb_ℤ (pos 0) req.total then record t { range_end = req.total } else t

unfoldable pub advance : RenewLeaseRequest → Task → Task
advance req t =
    if ltb_ℤ (pos t.frontier) req.frontier then record t { frontier = pos_part req.frontier } else t

unfoldable pub clamp_frontier : Task → Task
clamp_frontier t =
    if not (is_neg t.range_end) && ltb_ℤ t.range_end (pos t.frontier)
    then record t { frontier = pos_part t.range_end }
    else t

unfoldable pub reported : RenewLeaseRequest → Task → Task
unfolding fix_end advance clamp_frontier
reported req t = clamp_frontier (advance req (fix_end req t))

-- The state that RenewLease leaves in the task.
unfoldable pub renew : ℕ → RenewLeaseRequest → Task → Task
unfolding reported grant
renew lease_chunk req t = grant lease_chunk (reported req t)

-- The answer of RenewLease, read from the renewed task.
unfoldable pub renewal_of : RenewLeaseRequest → Task → LeaseRenewal
renewal_of req t = record {
  generation = t.generation;
  bound = t.granted;
  stolen = ltb_ℤ req.generation (pos t.generation);
}
