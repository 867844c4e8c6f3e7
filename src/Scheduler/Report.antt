-- ===== src/Scheduler/Report.antt =====
-- ReportResult in internal/scheduler/scheduler.go and the keys of commit.go. Its first and last
-- phases hold the lock; between them the task may be changed by others, so each is a step of its
-- own, and `report_result` runs them with nothing in between.
pub mod Terminal
pub mod Outside
use Prim.Native.String.{◌++◌ as append}
use distributed_image_proces.Prelude.{
  ℕ, ◌+◌, String, Bool, true, false, not, ◌&&◌, Option, none, some, List, [], ◌∷◌, ◌++◌, lookup,
  insert, string_discrete, ite, ltb, ℤ, if◌then◌else◌,
}
use distributed_image_proces.Scheduler.Job.{Task, TaskStatus, ResultRequest, Range, is_done}
use distributed_image_proces.Scheduler.State.{Scheduler, persist}
use distributed_image_proces.Scheduler.Settle.{update_job, requeued}

-- FinalResultKey: the two formats, with the text that they make left out.
pub data ResultKey : Type 0 where
  flat : String → String → ResultKey
  ranged : String → String → ℕ → ℤ → ResultKey

unfoldable pub final_result_key : String → String → Range → ResultKey
final_result_key job_id shard rng =
    if not rng.split then flat job_id shard else ranged job_id shard rng.start rng.end

pub record CommitDecision : Type 0 where
  pub task_id : String
  pub job_id : String
  pub generation : ℕ
  pub final_key : ResultKey

-- What ReportResult answers: nil, or the error of a phase.
pub data Answer : Type 0 where
  accepted task_not_found commit_failed decision_failed effect_failed : Answer

-- The attached Committer, CommitDecider and SideEffect, over the state `E` of the world that they
-- act on; nil is `none`. A Commit or Apply that fails is `false`, a Decide that fails `none`.
pub record Services (E : Type 0) : Type 0 where
  pub committer : Option (String → ResultKey → E → Bool × E)
  pub decider : Option (CommitDecision → E → Option CommitDecision × E)
  pub side_effect : Option (String → CommitDecision → E → Bool × E)
  -- The first 16 bytes of a key's SHA-256, in hexadecimal.
  pub key_hash : ResultKey → String

-- What phase 1 reads of the task while it holds the lock.
pub record Claimed : Type 0 where
  pub job_id : String
  pub shard : String
  pub rng : Range
  pub gen : ℕ

pub data Begun : Type 0 where
  unknown already_done : Begun
  claimed : Claimed → Begun

-- Phase 1.
unfoldable pub begin_report : String → Scheduler → Begun
begin_report task_id s = elim (lookup task_id s.tasks) [
  | none ↦ unknown
  | some t ↦
      if is_done t.status
      then already_done
      else claimed (record {
        job_id = t.job_id;
        shard = t.shard;
        rng = record { start = t.range_start; end = t.range_end; split = t.split };
        gen = t.generation;
      })
]

-- `s == ""`
abbrev pub is_empty : String → Bool
is_empty s = ite (string_discrete s "") true false

-- Phase 2, the promotion of the staged output.
module _ {E : Type 0} (v : Services E) where
  unfoldable pub promote : ResultRequest → ResultKey → E → Bool × E
  promote req key e = elim v.committer [
    | none ↦ (true, e)
    | some commit ↦
        if is_empty req.error && not (is_empty req.output_key)
        then commit req.output_key key e
        else (true, e)
  ]

  -- Phase 3, the agreed decision.
  unfoldable pub agree : ResultRequest → CommitDecision → E → Option CommitDecision × E
  agree req d e = elim v.decider [
    | none ↦ (some d, e)
    | some decide ↦ if is_empty req.error then decide d e else (some d, e)
  ]

  -- SideEffectKey
  unfoldable pub side_effect_key : String → String → Range → String
  unfolding final_result_key
  side_effect_key job_id shard rng = append "sfx-" (v.key_hash (final_result_key job_id shard rng))

  -- Phase 3.5, the side effect.
  unfoldable pub deliver : ResultRequest → String → CommitDecision → E → Bool × E
  deliver req key d e = elim v.side_effect [
    | none ↦ (true, e)
    | some apply ↦ if is_empty req.error then apply key d e else (true, e)
  ]

  -- The phases without the lock: `none` goes on to the last phase.
  unfoldable pub outside : String → ResultRequest → Claimed → E → Option Answer × E
  unfolding promote agree deliver final_result_key side_effect_key
  outside task_id req c e =
      let key = final_result_key c.job_id c.shard c.rng in
      let (promoted, e1) = promote req key e in
      if not promoted
      then (some commit_failed, e1)
      else (let (winner, e2) =
            agree req
              (record { task_id = task_id; job_id = c.job_id; generation = c.gen; final_key = key })
              e1 in
          elim winner [
            | none ↦ (some decision_failed, e2)
            | some d ↦
                let (delivered, e3) = deliver req (side_effect_key c.job_id c.shard c.rng) d e2 in
                if delivered then (none, e3) else (some effect_failed, e3)
          ])

-- The failure branch of phase 4.
unfoldable pub report_failure : String → ResultRequest → ℕ → Task → Scheduler → Scheduler
unfolding update_job requeued
report_failure task_id req now t s =
    let u = record t { finished_at = some now; worker_id = req.worker_id; error = req.error } in
    if ltb u.retries u.max_retries
    then record s {
      tasks = insert task_id (requeued u) s.tasks;
      pending_q = s.pending_q ++ u.id ∷ [];
    }
    else update_job u.job_id now
        (record s { tasks = insert task_id (record u { status = TaskStatus.failed }) s.tasks })

-- The success branch of phase 4.
unfoldable pub report_success : String → ResultRequest → ℕ → Task → Scheduler → Scheduler
unfolding update_job
report_success task_id req now t s =
    let u = record t {
      finished_at = some now;
      worker_id = req.worker_id;
      status = TaskStatus.done;
    } in
    update_job u.job_id now (record s { tasks = insert task_id u s.tasks })

-- Phase 4.
unfoldable pub finish_report : String → ResultRequest → ℕ → Scheduler → Answer × Scheduler
unfolding report_failure report_success
finish_report task_id req now s = elim (lookup task_id s.tasks) [
  | none ↦ (task_not_found, s)
  | some t ↦
      if is_done t.status
      then (accepted, s)
      else if not (is_empty req.error)
      then (accepted, persist (report_failure task_id req now t s))
      else (accepted, persist (report_success task_id req now t s))
]

-- ReportResult with no other call between its phases.
unfoldable pub report_result :
    {E : Type 0} → Services E → String → ResultRequest → ℕ → Scheduler → E → Answer × Scheduler × E
unfolding begin_report outside finish_report
report_result v task_id req now s e = elim (begin_report task_id s) [
  | unknown ↦ (task_not_found, s, e)
  | already_done ↦ (accepted, s, e)
  | claimed c ↦
      let (stop, e') = outside v task_id req c e in
      elim stop [
        | some answer ↦ (answer, s, e')
        | none ↦ let (answer, s') = finish_report task_id req now s in (answer, s', e')
      ]
]
