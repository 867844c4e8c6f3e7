-- ===== src/Scheduler/Report/Outside.antt =====
-- What the services do to the world, through the phases of a report that call them.
use distributed_image_proces.Prelude.{
  ℕ, String, ◌≡◌, refl, ◌⊎◌, inl, inr, Bool, not, ◌&&◌, Option, some, Bool-cases, Option-cases,
}
use distributed_image_proces.Scheduler.Job.{ResultRequest}
use distributed_image_proces.Scheduler.State.{Scheduler}
use distributed_image_proces.Scheduler.Report.{
  CommitDecision, ResultKey, Services, Claimed, Begun, promote, agree, deliver, outside,
  begin_report, report_result, side_effect_key, final_result_key, unknown, already_done, claimed,
  is_empty,
}

Begun-cases : (b : Begun) → ((b ≡ unknown) ⊎ (b ≡ already_done)) ⊎ ((c : Claimed) × (b ≡ claimed c))
Begun-cases unknown = inl (inl refl)
Begun-cases already_done = inl (inr refl)
Begun-cases (claimed c) = inr (c, refl)

module _ {E : Type 0} (v : Services E) (P : E → Type 0) where
  -- Each service that is attached keeps `P`.
  pub record Keeps : Type 0 where
    pub commits :
        (f : String → ResultKey → E → Bool × E)
        → v.committer ≡ some f
        → (staging : String) (key : ResultKey) (e : E) → P e
        → P (f staging key e).1
    pub decides :
        (f : CommitDecision → E → Option CommitDecision × E)
        → v.decider ≡ some f
        → (d : CommitDecision) (e : E) → P e
        → P (f d e).1
    pub delivers :
        (f : String → CommitDecision → E → Bool × E)
        → v.side_effect ≡ some f
        → (key : String) (d : CommitDecision) (e : E) → P e
        → P (f key d e).1

  module _ (k : Keeps) where
    promote-keeps :
        (req : ResultRequest) (key : ResultKey) (e : E) → P e → P (promote v req key e).1
    unfolding promote
    promote-keeps req key e h = elim (Option-cases v.committer) [
      | inl g ↦ rw (promote, g) h
      | inr (f, g) ↦ elim (Bool-cases (is_empty req.error && not (is_empty req.output_key))) [
        | inl b ↦ rw (promote, g, b) (k.commits f g req.output_key key e h)
        | inr b ↦ rw (promote, g, b) h
      ]
    ]

    agree-keeps : (req : ResultRequest) (d : CommitDecision) (e : E) → P e → P (agree v req d e).1
    unfolding agree
    agree-keeps req d e h = elim (Option-cases v.decider) [
      | inl g ↦ rw (agree, g) h
      | inr (f, g) ↦ elim (Bool-cases (is_empty req.error)) [
        | inl b ↦ rw (agree, g, b) (k.decides f g d e h)
        | inr b ↦ rw (agree, g, b) h
      ]
    ]

    deliver-keeps :
        (req : ResultRequest) (key : String) (d : CommitDecision) (e : E)
        → P e
        → P (deliver v req key d e).1
    unfolding deliver
    deliver-keeps req key d e h = elim (Option-cases v.side_effect) [
      | inl g ↦ rw (deliver, g) h
      | inr (f, g) ↦ elim (Bool-cases (is_empty req.error)) [
        | inl b ↦ rw (deliver, g, b) (k.delivers f g key d e h)
        | inr b ↦ rw (deliver, g, b) h
      ]
    ]

    pub outside-keeps :
        (task_id : String) (req : ResultRequest) (c : Claimed) (e : E)
        → P e
        → P (outside v task_id req c e).1
    unfolding outside
    outside-keeps task_id req c e h =
        let key = final_result_key c.job_id c.shard c.rng in
        let d : CommitDecision = record {
          task_id = task_id;
          job_id = c.job_id;
          generation = c.gen;
          final_key = key;
        } in
        let p1 = promote-keeps req key e h in
        let p2 = agree-keeps req d (promote v req key e).1 p1 in
        elim (Bool-cases (promote v req key e).0) [
          | inr f ↦ rw (outside, f) p1
          | inl t ↦ elim (Option-cases (agree v req d (promote v req key e).1).0) [
            | inl n ↦ rw (outside, t, n) p2
            | inr (w, n) ↦
                let e2 = (agree v req d (promote v req key e).1).1 in
                let sk = side_effect_key v c.job_id c.shard c.rng in
                let p3 = deliver-keeps req sk w e2 p2 in
                elim (Bool-cases (deliver v req sk w e2).0) [
                  | inl x ↦ rw (outside, t, n, x) p3
                  | inr x ↦ rw (outside, t, n, x) p3
                ]
          ]
        ]

    pub report_result-keeps :
        (task_id : String) (req : ResultRequest) (now : ℕ) (s : Scheduler) (e : E)
        → P e
        → P (report_result v task_id req now s e).2
    unfolding report_result
    report_result-keeps task_id req now s e h = elim (Begun-cases (begin_report task_id s)) [
      | inl (inl g) ↦ rw (report_result, g) h
      | inl (inr g) ↦ rw (report_result, g) h
      | inr (c, g) ↦
          let p = outside-keeps task_id req c e h in
          elim (Option-cases (outside v task_id req c e).0) [
            | inl n ↦ rw (report_result, g, n) p
            | inr (answer, n) ↦ rw (report_result, g, n) p
          ]
    ]
