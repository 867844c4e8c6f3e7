-- ===== src/Coordinator/Effects/Once.antt =====
-- The calls of the emitter, over runs of reports.
use distributed_image_proces.Scheduler.Report.Outside.{report_result-keeps}
use distributed_image_proces.Prelude.{
  subst, ℕ, String, ◌≡◌, refl, ap, inl, inr, if_pos, Bool, true, Option, some, List, ◌∷◌, map,
  arith, Bool-cases, Option-cases, string_discrete, some-inj,
}
use distributed_image_proces.Cache.Ids.{contains, Once}
use distributed_image_proces.Scheduler.Job.{ResultRequest}
use distributed_image_proces.Scheduler.State.{Scheduler}
use distributed_image_proces.Scheduler.Report.{CommitDecision, ResultKey, Services, report_result}
use distributed_image_proces.Coordinator.Effects.{
  claim, CompletionEvent, CompletionSink, completion_event, emit_event, apply_sink,
  enable_side_effects, beside, behind,
}

abbrev pub keys_of : List CompletionEvent → List String
keys_of es = map (λ e. e.key) es

module _ {W : Type 0} (emit : CompletionEvent → W → Bool × W) where
  -- The keys of the calls are those of the ledger, each once.
  pub record AtMostOnce (s : CompletionSink W) : Type 0 where
    pub once : Once s.ledger
    pub claimed_calls : keys_of s.calls ≡ s.ledger

  pub apply_sink-AtMostOnce :
      (key : String) (d : CommitDecision) (s : CompletionSink W)
      → AtMostOnce s
      → AtMostOnce (apply_sink emit key d s).1
  unfolding apply_sink claim emit_event completion_event
  apply_sink-AtMostOnce key d s a = elim (Bool-cases (contains key s.ledger)) [
    | inl e ↦ rw (apply_sink, claim, e) a
    | inr e ↦
        rw (apply_sink, claim, e)
          (record { once = (e, a.once); claimed_calls = ap (λ l. key ∷ l) a.claimed_calls })
  ]

  module _ {E : Type 0} (v : Services E) where
    committer-keeps :
        (f : String → ResultKey → E × CompletionSink W → Bool × (E × CompletionSink W))
        → (enable_side_effects emit v).committer ≡ some f
        → (staging : String) (key : ResultKey) (e : E × CompletionSink W) → AtMostOnce e.1
        → AtMostOnce (f staging key e).1.1
    unfolding enable_side_effects beside
    committer-keeps f h staging key e a = elim (Option-cases v.committer) [
      | inl g ↦ absurd (ground (arith, h, g))
      | inr (commit, g) ↦
          let same : some (λ staging key e. beside (commit staging key e.0) e.1) ≡ some f =
            rw g at h in
          subst (λ q. AtMostOnce (q staging key e).1.1) (some-inj same) a
    ]

    decider-keeps :
        (f : CommitDecision → E × CompletionSink W → Option CommitDecision × (E × CompletionSink W))
        → (enable_side_effects emit v).decider ≡ some f
        → (d : CommitDecision) (e : E × CompletionSink W) → AtMostOnce e.1
        → AtMostOnce (f d e).1.1
    unfolding enable_side_effects beside
    decider-keeps f h d e a = elim (Option-cases v.decider) [
      | inl g ↦ absurd (ground (arith, h, g))
      | inr (decide, g) ↦
          let same : some (λ d e. beside (decide d e.0) e.1) ≡ some f = rw g at h in
          subst (λ q. AtMostOnce (q d e).1.1) (some-inj same) a
    ]

    side_effect-keeps :
        (f : String → CommitDecision → E × CompletionSink W → Bool × (E × CompletionSink W))
        → (enable_side_effects emit v).side_effect ≡ some f
        → (key : String) (d : CommitDecision) (e : E × CompletionSink W) → AtMostOnce e.1
        → AtMostOnce (f key d e).1.1
    unfolding enable_side_effects behind
    side_effect-keeps f h key d e a =
        subst (λ q. AtMostOnce (q key d e).1.1) (some-inj h) (apply_sink-AtMostOnce key d e.1 a)

    -- Reports, one after another, on whatever states the scheduler is in.
    pub data Reports (e : E × CompletionSink W) : E × CompletionSink W → Type 0 where
      none_yet : Reports e e
      and_then :
          {e' : E × CompletionSink W} (task_id : String) (req : ResultRequest) (now : ℕ)
          (s : Scheduler)
          → Reports e e'
          → Reports e (report_result (enable_side_effects emit v) task_id req now s e').2

    -- In any run of reports, with any committer and decider: the keys that the emitter was called
    -- with are the claimed ones, each once, so that it is called at most once for a key.
    pub Reports-AtMostOnce :
        {e e' : E × CompletionSink W} → Reports e e' → AtMostOnce e.1 → AtMostOnce e'.1
    Reports-AtMostOnce none_yet a = a
    Reports-AtMostOnce (and_then {e'} task_id req now s r) a =
        report_result-keeps (enable_side_effects emit v) (λ e. AtMostOnce e.1)
          (record {
            commits = committer-keeps;
            decides = decider-keeps;
            delivers = side_effect-keeps;
          })
          task_id req now s e' (Reports-AtMostOnce r a)

  apply_sink-ledger :
      (key : String) (d : CommitDecision) (s : CompletionSink W)
      → contains key (apply_sink emit key d s).1.ledger ≡ true
  unfolding apply_sink claim emit_event contains
  apply_sink-ledger key d s = elim (Bool-cases (contains key s.ledger)) [
    | inl e ↦ rw (apply_sink, claim, e) e
    | inr e ↦ rw (apply_sink, claim, e) (rw (if_pos (string_discrete key key) refl) refl)
  ]

  -- A delivery uses up its key, also if the emitter fails on it: every later delivery under the key is
  -- accepted without a call of the emitter and changes nothing.
  pub apply_sink_again :
      (key : String) (d d' : CommitDecision) (s : CompletionSink W)
      → let s' = (apply_sink emit key d s).1 in apply_sink emit key d' s' ≡ (true, s')
  unfolding apply_sink claim
  apply_sink_again key d d' s = rw (apply_sink, claim, apply_sink-ledger key d s) refl
