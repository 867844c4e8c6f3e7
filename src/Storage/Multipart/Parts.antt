-- ===== src/Storage/Multipart/Parts.antt =====
-- The parts of a completed upload.
use distributed_image_proces.Prelude.{
  ℕ, zero, suc, ◌+◌, ◌≤◌, String, ◌≡◌, refl, sym, ap, ◌∙◌, Bool, true, false, Option, List, [], ◌∷◌,
  arith, ltb, if◌then◌else◌, Bool-cases, length, take, inl, inr, IfSome, IfSome-bind, IfSome-some,
  IfSome-if, count_if, count_if-append, subst,
}
use native.Mathlib.Decide.{dec_lt}
use distributed_image_proces.Storage.Multipart.Crew.{Crewed, is_completed, Running-Crewed}
use distributed_image_proces.Storage.Multipart.{
  Work, Part, Main, reading, draining, completed, aborted, Upload, start_upload, pick, UploadEvent,
  reads, drains, takes_work, leaves, uploads, fails, sends, completes, check_errors, end_reading,
  send_work, read_part, read_turn, take_work, is_reading, leave, drain_result, drained,
  complete_upload, part_of, upload_step, Running, begins, goes, sort_parts,
}
use distributed_image_proces.Storage.Multipart.Pieces.{
  Cuts, Cuts-nil, drop_short, rest_of, gathered, is_aborted, count_if-sort_parts, count_if-empty,
  count_if-pick,
}

module _ (put_part : Work → String) (pred : Part → Bool) where
  abbrev works : List Work → ℕ
  works ws = count_if (λ w. pred (part_of put_part w)) ws

  abbrev parts : List Part → ℕ
  parts ps = count_if pred ps

  -- The parts at some place on the way.
  abbrev places : Upload → ℕ
  places u = works u.work_ch + works u.uploading + parts u.sending + parts u.result_ch

  -- Every piece is on the way, gathered, to be cut off, or lost; while the upload is not aborted a
  -- piece is lost only where an UploadPart failed.
  record Kept (k whole : ℕ) (u : Upload) : Type 0 where
    later : List Work
    cuts : Cuts k u.part_num (rest_of u.main) later
    lost : ℕ
    total : places u + parts (gathered u.main) + works later + lost ≡ whole
    few : is_aborted u.main ≡ false → lost ≤ u.failed

  module _ (c k whole : ℕ) where
    abbrev Keeps : Option Upload → Type 0
    Keeps o = IfSome (Kept k whole) o

    end_reading-Kept :
        (broken : Bool) (u : Upload) (lost : ℕ)
        → places u + lost ≡ whole
        → lost ≤ u.failed
        → Kept k whole (end_reading broken u)
    unfolding end_reading check_errors
    end_reading-Kept true u lost t f = record {
      later = [];
      cuts = refl;
      lost = lost;
      total = omega (arith, t);
      few = λ a. cc;
    }
    end_reading-Kept false u lost t f = elim (Bool-cases (ltb 0 u.failed)) [
      | inl some_failed ↦
          rw some_failed (record {
            later = [];
            cuts = refl;
            lost = lost;
            total = omega (arith, t);
            few = λ a. cc;
          })
      | inr none_failed ↦
          rw none_failed (record {
            later = [];
            cuts = refl;
            lost = lost;
            total = omega (arith, t);
            few = λ a. f;
          })
    ]

    works-send_work :
        (chunk : List ℕ) (u : Upload)
        → works (send_work chunk u).work_ch
          ≡ works u.work_ch + works (record { num = u.part_num; content = chunk } ∷ [])
    works-send_work chunk u =
        count_if-append _ u.work_ch (record { num = u.part_num; content = chunk } ∷ [])

    read_part-Kept :
        (broken : Bool) (rest : List ℕ) (u : Upload) (later : List Work) (lost : ℕ)
        → Cuts k u.part_num rest later
        → places u + works later + lost ≡ whole
        → lost ≤ u.failed
        → Keeps (read_part c k broken rest u)
    unfolding read_part
    read_part-Kept broken [] u later lost cuts t f =
        let nothing = ap works (Cuts-nil k u.part_num later cuts) in
        end_reading-Kept broken u lost (omega (arith, t, nothing)) f
    read_part-Kept broken (b ∷ bs) u [] lost cuts t f = absurd (cc cuts)
    read_part-Kept broken (b ∷ bs) u (w ∷ ws) lost cuts t f =
        let u' = send_work (take k (b ∷ bs)) u in
        let now : works (w ∷ [])
            ≡ works (record { num = u.part_num; content = take k (b ∷ bs) } ∷ []) =
          ap (λ v. works (v ∷ [])) cuts.0 in
        let sends_it : places u' + works ws + lost ≡ whole =
          omega (arith, t, now, works-send_work (take k (b ∷ bs)) u) in
        elim (Bool-cases (ltb (length u.work_ch) c)) [
          | inr full ↦ rw full tt
          | inl room ↦ elim (Bool-cases (ltb (length (b ∷ bs)) k)) [
            | inl short ↦
                let last : ws ≡ [] = Cuts-nil k (u.part_num + 1) ws (
                  subst (λ l. Cuts k (u.part_num + 1) l ws)
                    (drop_short k (b ∷ bs) (ground (arith, short))) cuts.2) in
                let nothing = ap works last in
                rw (room, short)
                  (end_reading-Kept broken u' lost (omega (arith, sends_it, nothing)) f)
            | inr long ↦
                rw (room, long)
                  (record {
                    later = ws;
                    cuts = cuts.2;
                    lost = lost;
                    total = omega (arith, sends_it);
                    few = λ a. f;
                  })
          ]
        ]

    read_turn-Kept :
        (broken : Bool) (m : Main) (u : Upload)
        → m ≡ u.main
        → Kept k whole u
        → Keeps (read_turn c k broken m u)
    unfolding read_turn
    read_turn-Kept broken (reading rest) u e h =
        read_part-Kept broken rest u h.later h.lost
          (subst (λ m. Cuts k u.part_num (rest_of m) h.later) (sym e) h.cuts)
          (let none_yet = ap (λ m. parts (gathered m)) e in
            let t = h.total in omega (arith, t, none_yet))
          (h.few (ap is_aborted (sym e)))
    read_turn-Kept broken (draining ps) u e h = tt
    read_turn-Kept broken (completed ps) u e h = tt
    read_turn-Kept broken aborted u e h = tt

    -- A worker moves a part from one place to another.
    moved :
        (u u' : Upload) (h : Kept k whole u)
        → u'.main ≡ u.main
        → u'.part_num ≡ u.part_num
        → places u' ≡ places u
        → u'.failed ≡ u.failed
        → Kept k whole u'
    moved u u' h m n p f = record {
      later = h.later;
      cuts =
          subst (λ x. Cuts k x (rest_of u'.main) h.later) (sym n)
            (subst (λ x. Cuts k u.part_num (rest_of x) h.later) (sym m) h.cuts);
      lost = h.lost;
      total = let g = ap (λ x. parts (gathered x)) m in let t = h.total in omega (arith, t, g, p);
      few = λ a. let l = h.few (ap is_aborted (sym m) ∙ a) in omega (arith, l, f);
    }

    take_work-Kept :
        (n : ℕ) (ws : List Work) (u : Upload)
        → ws ≡ u.work_ch
        → Kept k whole u
        → Keeps (take_work n ws u)
    unfolding take_work
    take_work-Kept zero ws u g h = tt
    take_work-Kept (suc n) [] u g h = tt
    take_work-Kept (suc n) (w ∷ ws) u g h =
        let l = ap works g in moved u _ h refl refl (omega (arith, l)) refl

    leave-Kept : (n : ℕ) (ws : List Work) (u : Upload) → Kept k whole u → Keeps (leave n ws u)
    unfolding leave
    leave-Kept zero ws u h = tt
    leave-Kept (suc n) (w ∷ ws) u h = tt
    leave-Kept (suc n) [] u h = elim (Bool-cases (is_reading u.main)) [
      | inl open_ch ↦ rw open_ch tt
      | inr closed_ch ↦ rw closed_ch (moved u _ h refl refl refl refl)
    ]

    -- The caller moves on, once it has cut off everything.
    gathers :
        (u u' : Upload) (h : Kept k whole u) (ps : List Part)
        → draining ps ≡ u.main
        → is_reading u'.main ≡ false
        → is_aborted u'.main ≡ false
        → u'.part_num ≡ u.part_num
        → places u' + parts (gathered u'.main) ≡ places u + parts ps
        → u'.failed ≡ u.failed
        → rest_of u'.main ≡ []
        → Kept k whole u'
    gathers u u' h ps e r a n p f none_left = record {
      later = h.later;
      cuts =
          subst (λ x. Cuts k x (rest_of u'.main) h.later) (sym n)
            (subst (λ l. Cuts k u.part_num l h.later) (ap rest_of (sym e) ∙ sym none_left) h.cuts);
      lost = h.lost;
      total = let g = ap (λ x. parts (gathered x)) e in let t = h.total in omega (arith, t, g, p);
      few = λ _. let l = h.few (ap is_aborted (sym e)) in omega (arith, l, f);
    }

    drain_result-Kept :
        (m : Main) (rs : List Part) (u : Upload)
        → m ≡ u.main
        → rs ≡ u.result_ch
        → Kept k whole u
        → Keeps (drain_result m rs u)
    unfolding drain_result
    drain_result-Kept (reading rest) rs u e g h = tt
    drain_result-Kept (draining ps) [] u e g h = tt
    drain_result-Kept (draining ps) (r ∷ rs) u e g h =
        let l = ap parts g in
        let more = count_if-append pred ps (r ∷ []) in
        gathers u _ h ps e refl refl refl (omega (arith, l, more)) refl refl
    drain_result-Kept (completed ps) rs u e g h = tt
    drain_result-Kept aborted rs u e g h = tt

    completed-Kept :
        (accepted : Bool) (ps : List Part) (u : Upload)
        → draining ps ≡ u.main
        → Kept k whole u
        → Kept k whole (record u { main = if accepted then completed (sort_parts ps) else aborted })
    completed-Kept true ps u e h =
        gathers u _ h ps e refl refl refl (omega (arith, count_if-sort_parts pred ps)) refl refl
    completed-Kept false ps u e h = record {
      later = [];
      cuts = refl;
      lost = parts (gathered u.main) + works h.later + h.lost;
      total = let t = h.total in omega (arith, t);
      few = λ a. cc;
    }

    complete_upload-Kept :
        (accepted : Bool) (m : Main) (u : Upload)
        → m ≡ u.main
        → Kept k whole u
        → Keeps (complete_upload accepted m u)
    unfolding complete_upload
    complete_upload-Kept accepted (reading rest) u e h = tt
    complete_upload-Kept accepted (draining ps) u e h =
        IfSome-if (Kept k whole) (drained u) _ (λ _. completed-Kept accepted ps u e h)
    complete_upload-Kept accepted (completed ps) u e h = tt
    complete_upload-Kept accepted aborted u e h = tt

    upload_step-Kept :
        (e : UploadEvent) (u : Upload) → Kept k whole u → Keeps (upload_step put_part c k e u)
    unfolding upload_step
    upload_step-Kept (reads broken) u h = read_turn-Kept broken u.main u refl h
    upload_step-Kept drains u h = drain_result-Kept u.main u.result_ch u refl refl h
    upload_step-Kept takes_work u h = take_work-Kept u.idle u.work_ch u refl h
    upload_step-Kept leaves u h = leave-Kept u.idle u.work_ch u h
    upload_step-Kept (uploads i) u h = IfSome-bind (Kept k whole) (pick i u.uploading) _ (λ r e.
        let l =
          IfSome-some _ _ r (count_if-pick (λ w. pred (part_of put_part w)) i u.uploading) e in
        moved u _ h refl refl (omega (arith, l)) refl)
    upload_step-Kept (fails i) u h = IfSome-bind (Kept k whole) (pick i u.uploading) _ (λ r e.
        let l =
          IfSome-some _ _ r (count_if-pick (λ w. pred (part_of put_part w)) i u.uploading) e in
        let one = works (r.0 ∷ []) in
        record {
          later = h.later;
          cuts = h.cuts;
          lost = h.lost + one;
          total = let t = h.total in omega (arith, t, l);
          few = λ a. let f = h.few a in ground (arith, f);
        })
    upload_step-Kept (sends i) u h = elim (Bool-cases (ltb (length u.result_ch) c)) [
      | inr full ↦ rw full tt
      | inl room ↦ rw room (
          IfSome-bind (Kept k whole) (pick i u.sending) _ (λ r e.
            let l = IfSome-some _ _ r (count_if-pick pred i u.sending) e in
            let more = count_if-append pred u.result_ch (r.0 ∷ []) in
            moved u _ h refl refl (omega (arith, l, more)) refl))
    ]
    upload_step-Kept (completes accepted) u h = complete_upload-Kept accepted u.main u refl h

  no_work_left :
      {c : ℕ} (u : Upload)
      → Crewed c u
      → u.idle + length u.uploading + length u.sending + length u.result_ch ≡ 0
      → u.failed ≡ 0
      → length u.work_ch ≡ 0
  no_work_left {c} u w l f = elim (dec_lt 0 c) [
    | yes g ↦ (w.gone (omega (arith, l, f, g))).0
    | no g ↦ let q = w.queued in omega (arith, q)
  ]

  module _ (c k : ℕ) (bytes : List ℕ) (ws : List Work) (pieces : Cuts k 1 bytes ws) where
    Running-Kept : {u : Upload} → Running put_part c k bytes u → Kept k (works ws) u
    unfolding start_upload
    Running-Kept begins = record {
      later = ws;
      cuts = pieces;
      lost = 0;
      total = omega arith;
      few = λ _. omega arith;
    }
    Running-Kept (goes {u} {u'} e h run) =
        IfSome-some (Kept k (works ws)) _ u'
          (upload_step-Kept c k (works ws) e u (Running-Kept run)) h

    -- A completed upload in which no call of UploadPart failed: however the goroutines took turns, its
    -- parts are the pieces that the input is cut into, each exactly once, with its number and tag: any
    -- test counts as many parts as pieces.
    pub Running-parts :
        {u : Upload} {ps : List Part}
        → Running put_part c k bytes u
        → u.main ≡ completed ps
        → u.failed ≡ 0
        → parts ps ≡ works ws
    Running-parts {u} {ps} run e f =
        let h = Running-Kept run in
        let w = Running-Crewed put_part c k run in
        let all_left = w.settled (ap is_completed e) in
        let no_work =
          count_if-empty (λ x. pred (part_of put_part x)) u.work_ch (no_work_left u w all_left f) in
        let no_uploading =
          count_if-empty (λ x. pred (part_of put_part x)) u.uploading (omega (arith, all_left)) in
        let no_sending = count_if-empty pred u.sending (omega (arith, all_left)) in
        let no_result = count_if-empty pred u.result_ch (omega (arith, all_left)) in
        let nothing_later = ap works (
          Cuts-nil k u.part_num h.later
            (subst (λ m. Cuts k u.part_num (rest_of m) h.later) e h.cuts)) in
        let got = ap (λ m. parts (gathered m)) e in
        let none_lost = h.few (ap is_aborted e) in
        let t = h.total in
        omega
          (arith, t, no_work, no_uploading, no_sending, no_result, nothing_later, got, none_lost, f)
