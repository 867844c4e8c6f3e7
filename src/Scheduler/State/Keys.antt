-- ===== src/Scheduler/State/Keys.antt =====
-- The maps of the scheduler when it persists.
use distributed_image_proces.Scheduler.State.{persist, Scheduler}
use distributed_image_proces.Prelude.{◌≡◌, inl, inr, Option-cases}

pub persist-tasks : (s : Scheduler) → (persist s).tasks ≡ s.tasks
unfolding persist
persist-tasks s = elim (Option-cases s.store) [
  | inl e ↦ rw (e, persist)
  | inr (log, e) ↦ rw (e, persist)
]

pub persist-pending_q : (s : Scheduler) → (persist s).pending_q ≡ s.pending_q
unfolding persist
persist-pending_q s = elim (Option-cases s.store) [
  | inl e ↦ rw (e, persist)
  | inr (log, e) ↦ rw (e, persist)
]

pub persist-jobs : (s : Scheduler) → (persist s).jobs ≡ s.jobs
unfolding persist
persist-jobs s = elim (Option-cases s.store) [
  | inl e ↦ rw (e, persist)
  | inr (log, e) ↦ rw (e, persist)
]
