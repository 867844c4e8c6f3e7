-- ===== src/Coordinator/Failures/Rebalanced.antt =====
-- The tasks that RebalanceWorker takes from a worker.
use distributed_image_proces.Prelude.{
  ℕ, String, ◌≡◌, refl, sym, ap, ◌∙◌, false, Option-cases, Bool-cases, inl, inr, some, none, List,
  [], ◌∷◌, lookup, insert, lookup-insert, ltb, arith, string_discrete, subst,
}
use distributed_image_proces.Cache.Ids.{contains}
use distributed_image_proces.Scheduler.Job.{Task, TaskStatus, in_flight}
use distributed_image_proces.Scheduler.State.{Scheduler, persist}
use distributed_image_proces.Scheduler.Lease.{reset_lease}
use distributed_image_proces.Scheduler.Settle.{
  update_job, requeued, held_by, give_up, rebalance_one, rebalance_keys, keys, rebalance_worker,
}

-- The worker does not hold the task of this key.
pub record Spared (worker k : String) (s : Scheduler) : Type 0 where
  pub free : (t : Task) → lookup k s.tasks ≡ some t → held_by worker t ≡ false

abbrev pub Free : String → Scheduler → Type 0
Free worker s = (k : String) → Spared worker k s

not_held : (worker : String) (t : Task) → in_flight t.status ≡ false → held_by worker t ≡ false
unfolding held_by
not_held worker t h = ground (arith, h)

update_job-tasks : (id : String) (now : ℕ) (s : Scheduler) → (update_job id now s).tasks ≡ s.tasks
unfolding update_job
update_job-tasks id now s = elim (Option-cases (lookup id s.jobs)) [
  | inl e ↦ rw (update_job, e) refl
  | inr (j, e) ↦ rw (update_job, e) refl
]

pub persist-tasks : (s : Scheduler) → (persist s).tasks ≡ s.tasks
unfolding persist
persist-tasks s = elim (Option-cases s.store) [
  | inl e ↦ rw (persist, e) refl
  | inr (log, e) ↦ rw (persist, e) refl
]

insert-Spared :
    (worker k j : String) (u : Task) (s s' : Scheduler)
    → in_flight u.status ≡ false
    → s'.tasks ≡ insert j u s.tasks
    → Spared worker k s
    → Spared worker k s'
insert-Spared worker k j u s s' idle e p = record {
  free = λ t h.
      let found = sym (lookup-insert k j u s.tasks) ∙ sym (ap (lookup k) e) ∙ h in
      elim (string_discrete k j) [
        | yes same ↦
            let is_u : u ≡ t = ground (arith, found, same) in
            subst (λ x. held_by worker x ≡ false) is_u (not_held worker u idle)
        | no other ↦ p.free t (ground (arith, found, other))
      ];
}

insert-Spared_at :
    (worker j : String) (u : Task) (s s' : Scheduler)
    → in_flight u.status ≡ false
    → s'.tasks ≡ insert j u s.tasks
    → Spared worker j s'
insert-Spared_at worker j u s s' idle e = record {
  free = λ t h.
      let found = sym (lookup-insert j j u s.tasks) ∙ sym (ap (lookup j) e) ∙ h in
      let is_u : u ≡ t = ground (arith, found) in
      subst (λ x. held_by worker x ≡ false) is_u (not_held worker u idle);
}

requeued_idle : (t : Task) → in_flight (requeued t).status ≡ false
unfolding requeued reset_lease
requeued_idle t = refl

-- The task that is given up is in flight no more.
pub give_up-tasks :
    (now : ℕ) (j : String) (t : Task) (s : Scheduler) (n : ℕ)
    → (u : Task) × (in_flight u.status ≡ false)
      × ((give_up now j t (s, n)).0.tasks ≡ insert j u s.tasks)
unfolding give_up
give_up-tasks now j t s n = elim (Bool-cases (ltb t.retries t.max_retries)) [
  | inl r ↦ (requeued t, requeued_idle t, rw (give_up, r) refl)
  | inr r ↦ (
    record t { status = TaskStatus.failed },
    refl,
    rw (give_up, r) (update_job-tasks t.job_id now _),
  )
]

rebalance_one-Spared :
    (w worker k j : String) (now : ℕ) (s : Scheduler) (n : ℕ)
    → Spared w k s
    → Spared w k (rebalance_one worker now j (s, n)).0
unfolding rebalance_one
rebalance_one-Spared w worker k j now s n p = elim (Option-cases (lookup j s.tasks)) [
  | inl e ↦ rw (rebalance_one, e) p
  | inr (t, e) ↦ elim (Bool-cases (held_by worker t)) [
    | inr h ↦ rw (rebalance_one, e) (rw h p)
    | inl h ↦
        let (u, idle, same) = give_up-tasks now j t s n in
        rw (rebalance_one, e) (rw h (insert-Spared w k j u s _ idle same p))
  ]
]

-- The body of the loop for a key frees the task of that key.
rebalance_one-Spared_at :
    (worker j : String) (now : ℕ) (s : Scheduler) (n : ℕ)
    → Spared worker j (rebalance_one worker now j (s, n)).0
unfolding rebalance_one
rebalance_one-Spared_at worker j now s n = elim (Option-cases (lookup j s.tasks)) [
  | inl e ↦ rw (rebalance_one, e) (record { free = λ t h. absurd (ground (arith, e, h)) })
  | inr (t, e) ↦ elim (Bool-cases (held_by worker t)) [
    | inr h ↦
        rw (rebalance_one, e)
          (rw h (record {
            free = λ t' h'.
                (let is_t : t ≡ t' = ground (arith, e, h') in
                  subst (λ x. held_by worker x ≡ false) is_t h);
          }))
    | inl h ↦
        let (u, idle, same) = give_up-tasks now j t s n in
        rw (rebalance_one, e) (rw h (insert-Spared_at worker j u s _ idle same))
  ]
]

rebalance_keys-Spared :
    (w worker k : String) (now : ℕ) (ks : List String) (s : Scheduler) (n : ℕ)
    → Spared w k s
    → Spared w k (rebalance_keys worker now ks (s, n)).0
unfolding rebalance_keys
rebalance_keys-Spared w worker k now [] s n p = p
rebalance_keys-Spared w worker k now (j ∷ ks) s n p =
    let r = rebalance_one worker now j (s, n) in
    rebalance_keys-Spared w worker k now ks r.0 r.1 (rebalance_one-Spared w worker k j now s n p)

rebalance_keys-Free :
    (worker k : String) (now : ℕ) (ks : List String) (s : Scheduler) (n : ℕ)
    → (contains k ks ≡ false → Spared worker k s)
    → Spared worker k (rebalance_keys worker now ks (s, n)).0
unfolding rebalance_keys contains
rebalance_keys-Free worker k now [] s n p = p refl
rebalance_keys-Free worker k now (j ∷ ks) s n p =
    let r = rebalance_one worker now j (s, n) in
    elim (string_discrete k j) [
      | yes e ↦
          rebalance_keys-Spared worker worker k now ks r.0 r.1
            (subst (λ x. Spared worker x r.0) (sym e) (rebalance_one-Spared_at worker j now s n))
      | no d ↦
          rebalance_keys-Free worker k now ks r.0 r.1
            (λ c. rebalance_one-Spared worker worker k j now s n (p (ground (arith, d, c))))
    ]

lookup-keys :
    {V : Type 0} (k : String) (m : List (String × V))
    → contains k (keys m) ≡ false
    → lookup k m ≡ none
unfolding contains lookup
lookup-keys k [] h = refl
lookup-keys k ((j, v) ∷ m) h = ground (arith, lookup-keys k m)

same_tasks-Spared :
    {w k : String} {s s' : Scheduler} → s'.tasks ≡ s.tasks → Spared w k s → Spared w k s'
same_tasks-Spared {k} e p = record { free = λ t h. p.free t (ap (lookup k) (sym e) ∙ h) }

pub rebalance_worker-Spared :
    (w worker k : String) (now : ℕ) (s : Scheduler)
    → Spared w k s
    → Spared w k (rebalance_worker worker now s)
unfolding rebalance_worker
rebalance_worker-Spared w worker k now s p =
    let r = rebalance_keys worker now (keys s.tasks) (s, 0) in
    let q : Spared w k r.0 = rebalance_keys-Spared w worker k now (keys s.tasks) s 0 p in
    elim (Bool-cases (ltb 0 r.1)) [
      | inl h ↦ rw h (same_tasks-Spared (persist-tasks r.0) q)
      | inr h ↦ rw h q
    ]

-- RebalanceWorker leaves no task with the worker.
pub rebalance_worker-Free :
    (worker : String) (now : ℕ) (s : Scheduler) → Free worker (rebalance_worker worker now s)
unfolding rebalance_worker
rebalance_worker-Free worker now s k =
    let r = rebalance_keys worker now (keys s.tasks) (s, 0) in
    let q : Spared worker k r.0 =
      rebalance_keys-Free worker k now (keys s.tasks) s 0
        (λ c. record { free = λ t h. absurd (ground (arith, lookup-keys k s.tasks c, h)) }) in
    elim (Bool-cases (ltb 0 r.1)) [
      | inl h ↦ rw h (same_tasks-Spared (persist-tasks r.0) q)
      | inr h ↦ rw h q
    ]
