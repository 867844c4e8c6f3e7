-- ===== src/Scheduler/Dispatch/Poll.antt =====
-- PollTasks as a whole, and what it takes from the queue.
use distributed_image_proces.Scheduler.Steps.Ranges.{assigned_task-SameRange}
use distributed_image_proces.Scheduler.Invariant.Methods.{steal-WellFormed, task_ok}
use distributed_image_proces.Scheduler.Steal.Victim.{Stolen, steal-Stolen}
use distributed_image_proces.Scheduler.Invariant.{WellFormed, TaskOk}
use distributed_image_proces.Scheduler.Steal.{split_victim, stolen_task}
use distributed_image_proces.Scheduler.Dispatch.Queue.{
  last_resort, first_local, first_local_found, choose_lem, BestOk, last_resort-AtMost,
  last_resort-BestOk, first_local-none,
}
use distributed_image_proces.Scheduler.Dispatch.Waiting.{
  Pending, waiting-Pending, Pending-waiting, local-owner, All-best,
}
use distributed_image_proces.Scheduler.Dispatch.{
  choose, waiting, is_local, assign, assign_and_persist, poll_tasks, assignment_for, Scheduler,
  poll_queued, poll_steal, TaskAssignment, Polled, steal, assigned_task, persist, assignment_of,
}
use distributed_image_proces.Scheduler.Job.{Task}
use distributed_image_proces.Prelude.{
  ℕ, Option, subst, String, ◌≡◌, ap, ◌⊎◌, ◌≢◌, inl, inr, true, false, none, some, List, [], ◌∷◌,
  arith, Option-cases, get_elem?, All, ltb_ℤ, lookup, Distinct, remove_at, lookup-insert, sym, ◌∙◌,
  if_pos, string_discrete, insert, refl,
}

module _ (owner_of : String → String) (worker : String) (tasks : List (String × Task))
    (q : List String) where
  -- The queued id that PollTasks takes, and why.
  pub record Choice (idx : ℕ) : Type 0 where
    pub tid : String
    pub task : Task
    pub queued : get_elem? q idx ≡ some tid
    pub is_waiting : Pending owner_of worker tasks tid task
    pub best :
        (owner_of task.shard ≡ worker)
        ⊎ All
            (λ u.
              (t : Task)
              → Pending owner_of worker tasks u t
              → (owner_of t.shard ≢ worker) × (ltb_ℤ task.priority t.priority ≡ false))
            q

  is_local-waiting :
      (tid : String)
      → is_local owner_of worker tasks tid ≡ true
      → (t : Task) × (waiting owner_of worker tasks tid ≡ some t)
  unfolding is_local
  is_local-waiting tid h = elim (Option-cases (waiting owner_of worker tasks tid)) [
    | inl e ↦ absurd (ground arith)
    | inr (t, e) ↦ (t, e)
  ]

  All-map :
      (P Q : String → Type 0) (l : List String) → ((u : String) → P u → Q u) → All P l → All Q l
  All-map P Q [] f a = tt
  All-map P Q (x ∷ xs) f a = (f x a.0, All-map P Q xs f a.1)

  -- What the loop takes: one of the queued ids, or none if no queued id names a pending task.
  abbrev pub Chosen : Option ℕ → Type 0
  Chosen none = All (λ u. (t : Task) → ¬ Pending owner_of worker tasks u t) q
  Chosen (some idx) = Choice idx

  choose-Choice : (idx : ℕ) → choose owner_of worker tasks 0 none q ≡ some idx → Choice idx
  choose-Choice idx h = elim (Option-cases (first_local owner_of worker tasks 0 q)) [
    | inr (j, l) ↦
        let (tid, at, loc) =
          first_local_found owner_of worker tasks q 0 j q (λ d. ap (get_elem? q) (omega arith)) l in
        let (t, w) = is_local-waiting tid loc in
        let same : j ≡ idx = ground (arith, choose_lem owner_of worker tasks 0 none q) in
        record {
          tid = tid;
          task = t;
          queued = rw (← same) at;
          is_waiting = waiting-Pending owner_of worker tasks tid t w;
          best = inl (local-owner owner_of worker tasks tid t w loc);
        }
    | inl l ↦ elim (Option-cases (last_resort owner_of worker tasks 0 none q)) [
      | inl r ↦ absurd (ground (arith, choose_lem owner_of worker tasks 0 none q))
      | inr ((j, p), r) ↦
          let same : j ≡ idx = ground (arith, choose_lem owner_of worker tasks 0 none q) in
          let c : BestOk owner_of worker tasks q (some (j, p)) = rw r at (
            last_resort-BestOk owner_of worker tasks q 0 none q
              (λ d. ap (get_elem? q) (omega arith)) tt) in
          let above = (last_resort-AtMost owner_of worker tasks 0 none q).1 in
          let (tid, t, at, w, pri) = c in
          record {
            tid = tid;
            task = t;
            queued = rw (← same) at;
            is_waiting = waiting-Pending owner_of worker tasks tid t w;
            best = inr (
                All-best owner_of worker tasks t.priority q
                  (first_local-none owner_of worker tasks 0 q l)
                  (All-map _ _ q (λ u f t' w'. rw pri (rw r at (f t' w'))) above));
          }
    ]
  ]

  -- The loop finds nothing only when no queued id names a pending task.
  pub choose-none :
      choose owner_of worker tasks 0 none q ≡ none
      → All (λ u. waiting owner_of worker tasks u ≡ none) q
  choose-none h =
      let r : last_resort owner_of worker tasks 0 none q ≡ none =
        elim (Option-cases (last_resort owner_of worker tasks 0 none q)) [
          | inl r ↦ r
          | inr (jp, r) ↦ absurd (elim (Option-cases (first_local owner_of worker tasks 0 q)) [
            | inl l ↦ ground (arith, choose_lem owner_of worker tasks 0 none q)
            | inr (k, l) ↦ ground (arith, choose_lem owner_of worker tasks 0 none q)
          ])
        ] in
      All-map _ _ q
        (λ u f. elim (Option-cases (waiting owner_of worker tasks u)) [
          | inl w ↦ w
          | inr (t, w) ↦ absurd (rw r at (f t w))
        ])
        (last_resort-AtMost owner_of worker tasks 0 none q).1

  -- PollTasks takes a queued id that names a task whose status is pending: one whose shard the ring
  -- gives to the polling worker, or, if it gives the worker the shard of no pending queued task, one
  -- than which no pending queued task has a higher priority. It takes none only if no queued id names a
  -- pending task.
  pub choose-Chosen : Chosen (choose owner_of worker tasks 0 none q)
  choose-Chosen = elim (Option-cases (choose owner_of worker tasks 0 none q)) [
    | inl e ↦ subst Chosen (sym e) (
        All-map _ _ q
          (λ u w t p. absurd (ground (arith, w, Pending-waiting owner_of worker tasks u t p)))
          (choose-none e))
    | inr (idx, e) ↦ subst Chosen (sym e) (choose-Choice idx e)
  ]

-- A task of a sound map is assigned without a fault, to the worker, with its job's details.
assign_total :
    (tid worker : String) (now : ℕ) (t : Task) (s : Scheduler)
    → WellFormed s
    → lookup tid s.tasks ≡ some t
    → (r : TaskAssignment × Scheduler) × (assign tid worker now s ≡ some r)
unfolding assign assignment_for
assign_total tid worker now t s v e =
    let u = assigned_task s.lease_chunk worker now t in
    let ok : TaskOk s.jobs tid t = task_ok s tid t v e in
    elim (Option-cases (lookup u.job_id s.jobs)) [
      | inl f ↦ absurd (
          ok.job_known (
            ap (λ k. lookup k s.jobs)
              (sym (assigned_task-SameRange s.lease_chunk worker now t).job_id)
            ∙ f))
      | inr (job, f) ↦ (
        (assignment_of u job, record s { tasks = insert tid u s.tasks }),
        rw (e, assign) (rw (f, assignment_for)),
      )
    ]

assign_and_persist_total :
    (tid worker : String) (now : ℕ) (t : Task) (s : Scheduler)
    → WellFormed s
    → lookup tid s.tasks ≡ some t
    → (r : Polled) × (assign_and_persist tid worker now s ≡ some r)
unfolding assign_and_persist
assign_and_persist_total tid worker now t s v e =
    let (r, f) = assign_total tid worker now t s v e in ((some r.0, persist r.1), rw f)

steal_present :
    (new_id : String) (s : Scheduler) {r : Task × Scheduler}
    → Distinct s.tasks
    → steal new_id s ≡ some r
    → lookup r.0.id r.1.tasks ≡ some r.0
unfolding split_victim stolen_task
steal_present new_id s {r} d h =
    let t : Stolen new_id s r = steal-Stolen new_id s d h in
    rw t.result (lookup-insert new_id new_id _ _ ∙ if_pos (string_discrete new_id new_id) refl _ _)

-- In a state that satisfies the invariant PollTasks neither dereferences nil nor slices out of
-- range: it returns, with an assignment or with none.
pub poll_tasks_total :
    (owner_of : String → String) (new_id worker : String) (now : ℕ) (s : Scheduler)
    → WellFormed s
    → (r : Polled) × (poll_tasks owner_of new_id worker now s ≡ some r)
unfolding poll_tasks poll_queued poll_steal
poll_tasks_total owner_of new_id worker now s v =
    elim (Option-cases (choose owner_of worker s.tasks 0 none s.pending_q)) [
      | inr (idx, e) ↦
          let c = choose-Choice owner_of worker s.tasks s.pending_q idx e in
          let s' = record s { pending_q = remove_at s.pending_q idx } in
          let (r, f) = assign_and_persist_total c.tid worker now c.task s' v c.is_waiting.found in
          (r, rw (e, poll_tasks) (rw (c.queued, poll_queued) f))
      | inl e ↦ elim (Option-cases (steal new_id s)) [
        | inl f ↦ ((none, s), rw (e, poll_tasks) (rw (f, poll_steal)))
        | inr (q, f) ↦
            let (r, g) =
              assign_and_persist_total q.0.id worker now q.0 q.1 (steal-WellFormed new_id s v f)
                (steal_present new_id s v.distinct f) in
            (r, rw (e, poll_tasks) (rw (f, poll_steal) g))
      ]
    ]
