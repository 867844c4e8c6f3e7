-- ===== src/Scheduler/Dispatch/Waiting.antt =====
-- Which queued ids name a pending task, and whose shard is the worker's.
use distributed_image_proces.Scheduler.Dispatch.{waiting, is_local}
use distributed_image_proces.Scheduler.Job.{Task, TaskStatus, is_pending}
use distributed_image_proces.Prelude.{
  String, ◌≡◌, ◌≢◌, refl, ap, ite, true, false, none, some, List, [], ◌∷◌, arith, All, ℤ, ltb_ℤ,
  lookup, string_discrete, if◌then◌else◌,
}

module _ (owner_of : String → String) (worker : String) (tasks : List (String × Task)) where
  -- A queued id names a pending task.
  pub record Pending (tid : String) (t : Task) : Type 0 where
    pub found : lookup tid tasks ≡ some t
    pub pending : t.status ≡ TaskStatus.pending

  is_pending_eq : (st : TaskStatus) → is_pending st ≡ true → st ≡ TaskStatus.pending
  is_pending_eq TaskStatus.pending h = refl
  is_pending_eq TaskStatus.assigned h = absurd (cc h)
  is_pending_eq TaskStatus.running h = absurd (cc h)
  is_pending_eq TaskStatus.done h = absurd (cc h)
  is_pending_eq TaskStatus.failed h = absurd (cc h)

  pub waiting-Pending :
      (tid : String) (t : Task) → waiting owner_of worker tasks tid ≡ some t → Pending tid t
  unfolding waiting
  waiting-Pending tid t h = record {
    found = ground (arith, h);
    pending = is_pending_eq t.status (ground (arith, h));
  }

  pub Pending-waiting :
      (tid : String) (t : Task) → Pending tid t → waiting owner_of worker tasks tid ≡ some t
  unfolding waiting
  Pending-waiting tid t p =
      rw (waiting, p.found) (ap (λ b. if b then some t else none) (ap is_pending p.pending))

  is_local-owner :
      (tid : String) (t : Task)
      → waiting owner_of worker tasks tid ≡ some t
      → is_local owner_of worker tasks tid
        ≡ ite (string_discrete (owner_of t.shard) worker) true false
  unfolding is_local
  is_local-owner tid t w = rw (is_local, w) refl

  pub local-owner :
      (tid : String) (t : Task)
      → waiting owner_of worker tasks tid ≡ some t
      → is_local owner_of worker tasks tid ≡ true
      → owner_of t.shard ≡ worker
  local-owner tid t w l = ground (arith, is_local-owner tid t w, l)

  not_local-owner :
      (tid : String) (t : Task)
      → waiting owner_of worker tasks tid ≡ some t
      → is_local owner_of worker tasks tid ≡ false
      → owner_of t.shard ≢ worker
  not_local-owner tid t w l = λ e. absurd (ground (arith, is_local-owner tid t w, l, e))

  pub All-best :
      (p : ℤ) (l : List String)
      → All (λ u. is_local owner_of worker tasks u ≡ false) l
      → All
          (λ u. (t : Task) → waiting owner_of worker tasks u ≡ some t → ltb_ℤ p t.priority ≡ false)
          l
      → All
          (λ u.
            (t : Task) → Pending u t → (owner_of t.shard ≢ worker) × (ltb_ℤ p t.priority ≡ false))
          l
  All-best p [] a b = tt
  All-best p (u ∷ us) a b = (
    λ t h. (let w = Pending-waiting u t h in (not_local-owner u t w a.0, b.0 t w)),
    All-best p us a.1 b.1,
  )
