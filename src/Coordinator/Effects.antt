-- ===== src/Coordinator/Effects.antt =====
-- internal/effect/effect.go and internal/coordinator/effect.go: the idempotency ledger and the
-- completion events behind it. The emitter is a parameter, with a state `W` of its own.
pub mod Once
use distributed_image_proces.Prelude.{
  String, Bool, true, false, none, some, List, [], ◌∷◌, if◌then◌else◌,
}
use distributed_image_proces.Cache.Ids.{contains}
use distributed_image_proces.Scheduler.Report.{CommitDecision, ResultKey, Services}

-- MemLedger: the keys of `seen`.
abbrev pub MemLedger : Type 0
MemLedger = List String

-- NewMemLedger
unfoldable pub new_mem_ledger : MemLedger
new_mem_ledger = []

-- Claim
unfoldable pub claim : String → MemLedger → Bool × MemLedger
unfolding contains
claim key m = if contains key m then (false, m) else (true, key ∷ m)

pub record CompletionEvent : Type 0 where
  pub key : String
  pub task_id : String
  pub job_id : String
  pub final_key : ResultKey

-- The sink with its ledger, the state of the emitter, and the events that it was called with, the
-- latest first.
pub record CompletionSink (W : Type 0) : Type 0 where
  pub ledger : MemLedger
  pub downstream : W
  pub calls : List CompletionEvent

-- An answer of one part of the world, with the other part left as it is.
unfoldable pub beside : {A E S : Type 0} → A × E → S → A × (E × S)
beside (a, e) s = (a, (e, s))

unfoldable pub behind : {A E S : Type 0} → E → A × S → A × (E × S)
behind e (a, s) = (a, (e, s))

module _ {W : Type 0} (emit : CompletionEvent → W → Bool × W) where
  unfoldable pub completion_event : String → CommitDecision → CompletionEvent
  completion_event key d = record {
    key = key;
    task_id = d.task_id;
    job_id = d.job_id;
    final_key = d.final_key;
  }

  unfoldable pub emit_event :
      CompletionEvent → MemLedger → CompletionSink W → Bool × CompletionSink W
  emit_event ev ledger s =
      let (done, w) = emit ev s.downstream in
      (done, record { ledger = ledger; downstream = w; calls = ev ∷ s.calls })

  -- Apply of completionSink; `false` is the emitter's error.
  unfoldable pub apply_sink : String → CommitDecision → CompletionSink W → Bool × CompletionSink W
  unfolding claim completion_event emit_event
  apply_sink key d s =
      let (first, ledger) = claim key s.ledger in
      if first then emit_event (completion_event key d) ledger s else (true, s)

  -- EnableSideEffects on services that act on the rest of the world, `E`.
  unfoldable pub enable_side_effects : {E : Type 0} → Services E → Services (E × CompletionSink W)
  unfolding apply_sink beside behind
  enable_side_effects v = record {
    committer = elim v.committer [
      | none ↦ none
      | some commit ↦ some (λ staging key e. beside (commit staging key e.0) e.1)
    ];
    decider = elim v.decider [
      | none ↦ none
      | some decide ↦ some (λ d e. beside (decide d e.0) e.1)
    ];
    side_effect = some (λ key d e. behind e.0 (apply_sink key d e.1));
    key_hash = v.key_hash;
  }
