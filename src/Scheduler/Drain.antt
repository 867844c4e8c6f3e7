-- ===== src/Scheduler/Drain.antt =====
-- internal/scheduler/scheduler.go: DrainPending and PendingCount.
use distributed_image_proces.Prelude.{
  ℕ, String, Option, none, some, List, [], ◌∷◌, lookup, insert, length, take, drop, ltb, ◌==◌, ℤ,
  pos, negsuc, if◌then◌else◌,
}
use distributed_image_proces.Scheduler.Job.{Task, TaskStatus, TaskAssignment, is_pending}
use distributed_image_proces.Scheduler.State.{Scheduler, persist}
use distributed_image_proces.Scheduler.Lease.{grant}
use distributed_image_proces.Scheduler.Dispatch.{assignment_of}

-- PendingCount
unfoldable pub pending_count : Scheduler → ℕ
pending_count s = length s.pending_q

unfoldable pub drained_task : ℕ → ℕ → Task → Task
drained_task chunk now t =
    grant chunk (record t { status = TaskStatus.assigned; assigned_at = some now })

-- The body of DrainPending's loop.
unfoldable pub drain_one : ℕ → String → Scheduler → Option TaskAssignment × Scheduler
unfolding drained_task
drain_one now tid s = elim (lookup tid s.tasks) [
  | none ↦ (none, s)
  | some t ↦ elim (lookup t.job_id s.jobs) [
    | none ↦ (none, s)
    | some job ↦
        if is_pending t.status
        then (let u = drained_task s.lease_chunk now t in
            (some (assignment_of u job), record s { tasks = insert tid u s.tasks }))
        else (none, s)
  ]
]

unfoldable pub drain_ids : ℕ → List String → Scheduler → List TaskAssignment × Scheduler
unfolding drain_one
drain_ids now [] s = ([], s)
drain_ids now (tid ∷ ids) s =
    let (a, s') = drain_one now tid s in
    let (rest, s'') = drain_ids now ids s' in (elim a [ none ↦ rest | some x ↦ x ∷ rest ], s'')

unfoldable pub drain : ℕ → ℕ → Scheduler → List TaskAssignment × Scheduler
unfolding drain_ids
drain now n s =
    let (out, s') =
      drain_ids now (take n s.pending_q) (record s { pending_q = drop n s.pending_q }) in
    (out, persist s')

-- DrainPending; a negative count slices out of range.
unfoldable pub drain_pending : ℕ → ℤ → Scheduler → Option (List TaskAssignment × Scheduler)
unfolding drain
drain_pending now (negsuc _) s = none
drain_pending now (pos n) s =
    let m = if ltb (length s.pending_q) n then length s.pending_q else n in
    if m == 0 then some ([], s) else some (drain now m s)
