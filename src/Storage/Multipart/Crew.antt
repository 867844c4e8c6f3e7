-- ===== src/Storage/Multipart/Crew.antt =====
-- When the workers of an upload have left, and what they leave behind.
use distributed_image_proces.Prelude.{
  ℕ, zero, suc, ◌+◌, ◌≤◌, ◌<◌, String, ◌≡◌, refl, sym, ap, ◌∙◌, Bool, true, false, Option, List, [],
  ◌∷◌, arith, ltb, Bool-cases, length, take, length-append, inl, inr, IfSome, IfSome-bind,
  IfSome-some, IfSome-if,
}
use native.Mathlib.Decide.{dec_lt}
use distributed_image_proces.Storage.Multipart.{
  Work, Part, Main, reading, draining, completed, aborted, Upload, start_upload, pick, UploadEvent,
  reads, drains, takes_work, leaves, uploads, fails, sends, completes, check_errors, end_reading,
  send_work, read_part, read_turn, take_work, is_reading, leave, drain_result, drained,
  complete_upload, upload_step, Running, begins, goes,
}
use distributed_image_proces.Storage.Multipart.Capacity.{pick-length}

abbrev pub is_completed : Main → Bool
is_completed (reading bytes) = false
is_completed (draining ps) = false
is_completed (completed ps) = true
is_completed aborted = false

-- The workers that are there, or have returned on an error.
abbrev crew : Upload → ℕ
crew u = u.idle + length u.uploading + length u.sending + u.failed

-- A worker leaves without an error only when no work is left, and an upload is completed only when
-- all have left.
pub record Crewed (c : ℕ) (u : Upload) : Type 0 where
  pub queued : length u.work_ch ≤ c
  pub gone : crew u < c → (length u.work_ch ≡ 0) × (is_reading u.main ≡ false)
  pub settled :
      is_completed u.main ≡ true
      → u.idle + length u.uploading + length u.sending + length u.result_ch ≡ 0

module _ (put_part : Work → String) (c k : ℕ) where
  abbrev Keeps : Option Upload → Type 0
  Keeps o = IfSome (Crewed c) o

  end_reading-Crewed :
      (broken : Bool) (u : Upload)
      → length u.work_ch ≤ c
      → c ≤ crew u
      → Crewed c (end_reading broken u)
  unfolding end_reading check_errors
  end_reading-Crewed true u q f = record {
    queued = q;
    gone = λ g. absurd (omega (arith, f, g));
    settled = λ s. cc;
  }
  end_reading-Crewed false u q f = elim (Bool-cases (ltb 0 u.failed)) [
    | inl some_failed ↦
        rw some_failed
          (record { queued = q; gone = λ g. absurd (omega (arith, f, g)); settled = λ s. cc })
    | inr none_failed ↦
        rw none_failed
          (record { queued = q; gone = λ g. absurd (omega (arith, f, g)); settled = λ s. cc })
  ]

  read_part-Crewed :
      (broken : Bool) (rest : List ℕ) (u : Upload)
      → length u.work_ch ≤ c
      → c ≤ crew u
      → Keeps (read_part c k broken rest u)
  unfolding read_part
  read_part-Crewed broken [] u q f = end_reading-Crewed broken u q f
  read_part-Crewed broken (b ∷ bs) u q f = elim (Bool-cases (ltb (length u.work_ch) c)) [
    | inr full ↦ rw full tt
    | inl room ↦
        let u' = send_work (take k (b ∷ bs)) u in
        let longer =
          length-append u.work_ch (record { num = u.part_num; content = take k (b ∷ bs) } ∷ []) in
        let free : length u.work_ch < c = ground (arith, room) in
        let q' : length u'.work_ch ≤ c = omega (arith, longer, free) in
        elim (Bool-cases (ltb (length (b ∷ bs)) k)) [
          | inl short ↦ rw (room, short) (end_reading-Crewed broken u' q' f)
          | inr long ↦
              rw (room, long)
                (record {
                  queued = q';
                  gone = λ g. absurd (omega (arith, f, g));
                  settled = λ s. cc;
                })
        ]
  ]

  read_turn-Crewed :
      (broken : Bool) (m : Main) (u : Upload)
      → m ≡ u.main
      → Crewed c u
      → Keeps (read_turn c k broken m u)
  unfolding read_turn
  read_turn-Crewed broken (reading rest) u e h =
      read_part-Crewed broken rest u h.queued (elim (dec_lt (crew u) c) [
        | yes g ↦ absurd (cc (ap is_reading e ∙ (h.gone g).1))
        | no g ↦ omega arith
      ])
  read_turn-Crewed broken (draining ps) u e h = tt
  read_turn-Crewed broken (completed ps) u e h = tt
  read_turn-Crewed broken aborted u e h = tt

  take_work-Crewed :
      (n : ℕ) (ws : List Work) (u : Upload)
      → n ≡ u.idle
      → ws ≡ u.work_ch
      → Crewed c u
      → Keeps (take_work n ws u)
  unfolding take_work
  take_work-Crewed zero ws u e g h = tt
  take_work-Crewed (suc n) [] u e g h = tt
  take_work-Crewed (suc n) (w ∷ ws) u e g h =
      let l = ap length g in
      record {
        queued = let q = h.queued in omega (arith, l, q);
        gone = λ t.
            let none_left = (h.gone (omega (arith, t, e))).0 in
            absurd (omega (arith, l, none_left));
        settled = λ s. let all_left = h.settled s in absurd (omega (arith, e, all_left));
      }

  leave-Crewed :
      (n : ℕ) (ws : List Work) (u : Upload)
      → n ≡ u.idle
      → ws ≡ u.work_ch
      → Crewed c u
      → Keeps (leave n ws u)
  unfolding leave
  leave-Crewed zero ws u e g h = tt
  leave-Crewed (suc n) (w ∷ ws) u e g h = tt
  leave-Crewed (suc n) [] u e g h = elim (Bool-cases (is_reading u.main)) [
    | inl open_ch ↦ rw open_ch tt
    | inr closed_ch ↦ rw closed_ch (record {
      queued = h.queued;
      gone = λ t. (ap length (sym g), closed_ch);
      settled = λ s. let all_left = h.settled s in absurd (omega (arith, e, all_left));
    })
  ]

  drain_result-Crewed :
      (m : Main) (rs : List Part) (u : Upload) → Crewed c u → Keeps (drain_result m rs u)
  unfolding drain_result
  drain_result-Crewed (reading rest) rs u h = tt
  drain_result-Crewed (draining ps) [] u h = tt
  drain_result-Crewed (draining ps) (r ∷ rs) u h = record {
    queued = h.queued;
    gone = λ t. ((h.gone t).0, refl);
    settled = λ s. cc;
  }
  drain_result-Crewed (completed ps) rs u h = tt
  drain_result-Crewed aborted rs u h = tt

  complete_upload-Crewed :
      (accepted : Bool) (m : Main) (u : Upload) → Crewed c u → Keeps (complete_upload accepted m u)
  unfolding complete_upload
  complete_upload-Crewed accepted (reading rest) u h = tt
  complete_upload-Crewed true (draining ps) u h = IfSome-if (Crewed c) (drained u) _ (λ d. record {
    queued = h.queued;
    gone = λ t. ((h.gone t).0, refl);
    settled = λ s. ground (arith, d);
  })
  complete_upload-Crewed false (draining ps) u h =
      IfSome-if (Crewed c) (drained u) _
        (λ d. record { queued = h.queued; gone = λ t. ((h.gone t).0, refl); settled = λ s. cc })
  complete_upload-Crewed accepted (completed ps) u h = tt
  complete_upload-Crewed accepted aborted u h = tt

  upload_step-Crewed :
      (e : UploadEvent) (u : Upload) → Crewed c u → Keeps (upload_step put_part c k e u)
  unfolding upload_step
  upload_step-Crewed (reads broken) u h = read_turn-Crewed broken u.main u refl h
  upload_step-Crewed drains u h = drain_result-Crewed u.main u.result_ch u h
  upload_step-Crewed takes_work u h = take_work-Crewed u.idle u.work_ch u refl refl h
  upload_step-Crewed leaves u h = leave-Crewed u.idle u.work_ch u refl refl h
  upload_step-Crewed (uploads i) u h = IfSome-bind (Crewed c) (pick i u.uploading) _ (λ r e.
      let l = IfSome-some _ _ r (pick-length i u.uploading) e in
      record {
        queued = h.queued;
        gone = λ t. h.gone (omega (arith, t, l));
        settled = λ s. let all_left = h.settled s in absurd (omega (arith, l, all_left));
      })
  upload_step-Crewed (fails i) u h = IfSome-bind (Crewed c) (pick i u.uploading) _ (λ r e.
      let l = IfSome-some _ _ r (pick-length i u.uploading) e in
      record {
        queued = h.queued;
        gone = λ t. h.gone (omega (arith, t, l));
        settled = λ s. let all_left = h.settled s in absurd (omega (arith, l, all_left));
      })
  upload_step-Crewed (sends i) u h = elim (Bool-cases (ltb (length u.result_ch) c)) [
    | inr full ↦ rw full tt
    | inl room ↦ rw room (
        IfSome-bind (Crewed c) (pick i u.sending) _ (λ r e.
          let l = IfSome-some _ _ r (pick-length i u.sending) e in
          record {
            queued = h.queued;
            gone = λ t. h.gone (omega (arith, t, l));
            settled = λ s. let all_left = h.settled s in absurd (omega (arith, l, all_left));
          }))
  ]
  upload_step-Crewed (completes accepted) u h = complete_upload-Crewed accepted u.main u h

  pub Running-Crewed : {bytes : List ℕ} {u : Upload} → Running put_part c k bytes u → Crewed c u
  unfolding start_upload
  Running-Crewed begins = record {
    queued = omega arith;
    gone = λ t. absurd (omega (arith, t));
    settled = λ s. cc;
  }
  Running-Crewed (goes {u} {u'} e h run) =
      IfSome-some (Crewed c) _ u' (upload_step-Crewed e u (Running-Crewed run)) h
