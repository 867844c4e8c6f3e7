-- ===== src/Scheduler/Steps/Requeues.antt =====
-- The ranges of the tasks through drains and rebalances.
use distributed_image_proces.Scheduler.Drain.{
  drain_ids, drain_pending, drain_one, drain, drained_task,
}
use distributed_image_proces.Scheduler.Settle.{
  rebalance_worker, rebalance_keys, rebalance_one, give_up, keys, held_by, requeued, update_job,
}
use distributed_image_proces.Prelude.{
  ℕ, ◌≡◌, refl, String, List, Option-cases, ◌∷◌, lookup, inl, ◌∙◌, ℤ, some, Bool-cases, inr, IfSome,
  ltb, negsuc, insert, pos, ◌++◌, if◌then◌else◌, [], length, drop, ◌==◌, take,
}
use distributed_image_proces.Scheduler.Job.{Task, TaskStatus, is_pending}
use distributed_image_proces.Scheduler.State.{Scheduler}
use distributed_image_proces.Scheduler.Steps.Ranges.{
  Keeps, SameRange, persist-Keeps, Keeps-insert, drained_task-SameRange, requeued-SameRange,
  update_job-Keeps,
}

module _ (job_id shard : String) (i : ℕ) where
  drain_one-Keeps :
      (now : ℕ) (tid : String) (s : Scheduler) → Keeps job_id shard i s (drain_one now tid s).1
  unfolding drain_one
  drain_one-Keeps now tid s = elim (Option-cases (lookup tid s.tasks)) [
    | inl e ↦ rw (e, drain_one)
    | inr (t, e) ↦ elim (Option-cases (lookup t.job_id s.jobs)) [
      | inl f ↦ rw (e, f, drain_one)
      | inr (job, f) ↦ elim (Bool-cases (is_pending t.status)) [
        | inr p ↦ rw (e, f, p, drain_one)
        | inl p ↦
            rw (e, f, p, drain_one)
              (Keeps-insert job_id shard i tid t (drained_task s.lease_chunk now t) s.tasks e
                (drained_task-SameRange s.lease_chunk now t))
      ]
    ]
  ]

  drain_ids-Keeps :
      (now : ℕ) (ids : List String) (s : Scheduler) → Keeps job_id shard i s (drain_ids now ids s).1
  unfolding drain_ids
  drain_ids-Keeps now [] s = refl
  drain_ids-Keeps now (tid ∷ ids) s =
      drain_ids-Keeps now ids (drain_one now tid s).1 ∙ drain_one-Keeps now tid s

  pub drain_pending-Keeps :
      (now : ℕ) (n : ℤ) (s : Scheduler)
      → IfSome (λ r. Keeps job_id shard i s r.1) (drain_pending now n s)
  unfolding drain_pending drain
  drain_pending-Keeps now (negsuc _) s = tt
  drain_pending-Keeps now (pos n) s =
      let m = if ltb (length s.pending_q) n then length s.pending_q else n in
      let s' = record s { pending_q = drop m s.pending_q } in
      elim (Bool-cases (m == 0)) [
        | inl e ↦ rw e refl
        | inr e ↦ rw e (
            persist-Keeps job_id shard i (drain_ids now (take m s.pending_q) s').1
            ∙ drain_ids-Keeps now (take m s.pending_q) s')
      ]

  -- The two ends of an attempt that failed: another try, or the task's failure.
  pub failing-Keeps :
      (now : ℕ) (k : String) (t u : Task) (q : List String) (s : Scheduler)
      → lookup k s.tasks ≡ some t
      → SameRange t u
      → Keeps job_id shard i s (record s { tasks = insert k (requeued u) s.tasks; pending_q = q })
        × Keeps job_id shard i s (
            update_job u.job_id now
              (record s { tasks = insert k (record u { status = TaskStatus.failed }) s.tasks }))
  failing-Keeps now k t u q s e r =
      let again = requeued-SameRange u in
      (
        Keeps-insert job_id shard i k t (requeued u) s.tasks e (record {
          job_id = again.job_id ∙ r.job_id;
          shard = again.shard ∙ r.shard;
          start = again.start ∙ r.start;
          end = again.end ∙ r.end;
        }),
        update_job-Keeps job_id shard i u.job_id now
              (record s { tasks = insert k (record u { status = TaskStatus.failed }) s.tasks })
            ∙ Keeps-insert job_id shard i k t (record u { status = TaskStatus.failed }) s.tasks e
                (record { job_id = r.job_id; shard = r.shard; start = r.start; end = r.end }),
      )

  rebalance_one-Keeps :
      (worker : String) (now : ℕ) (k : String) (s : Scheduler) (n : ℕ)
      → Keeps job_id shard i s (rebalance_one worker now k (s, n)).0
  unfolding rebalance_one give_up
  rebalance_one-Keeps worker now k s n = elim (Option-cases (lookup k s.tasks)) [
    | inl e ↦ rw (e, rebalance_one)
    | inr (t, e) ↦ elim (Bool-cases (held_by worker t)) [
      | inr h ↦ rw (e, rebalance_one) (rw h refl)
      | inl h ↦
          let (again, over) =
            failing-Keeps now k t t (s.pending_q ++ t.id ∷ []) s e
              (record { job_id = refl; shard = refl; start = refl; end = refl }) in
          elim (Bool-cases (ltb t.retries t.max_retries)) [
            | inl r ↦ rw (e, rebalance_one) (rw (h, r) again)
            | inr r ↦ rw (e, rebalance_one) (rw (h, r) over)
          ]
    ]
  ]

  rebalance_keys-Keeps :
      (worker : String) (now : ℕ) (ks : List String) (s : Scheduler) (n : ℕ)
      → Keeps job_id shard i s (rebalance_keys worker now ks (s, n)).0
  unfolding rebalance_keys
  rebalance_keys-Keeps worker now [] s n = refl
  rebalance_keys-Keeps worker now (k ∷ ks) s n =
      let r = rebalance_one worker now k (s, n) in
      rebalance_keys-Keeps worker now ks r.0 r.1 ∙ rebalance_one-Keeps worker now k s n

  pub rebalance_worker-Keeps :
      (worker : String) (now : ℕ) (s : Scheduler)
      → Keeps job_id shard i s (rebalance_worker worker now s)
  unfolding rebalance_worker
  rebalance_worker-Keeps worker now s =
      let r = rebalance_keys worker now (keys s.tasks) (s, 0) in
      let same : Keeps job_id shard i s r.0 = rebalance_keys-Keeps worker now (keys s.tasks) s 0 in
      elim (Bool-cases (ltb 0 r.1)) [
        | inl p ↦ rw p (persist-Keeps job_id shard i r.0 ∙ same)
        | inr p ↦ rw p same
      ]
