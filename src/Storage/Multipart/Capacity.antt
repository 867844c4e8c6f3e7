-- ===== src/Storage/Multipart/Capacity.antt =====
-- How many parts an upload has room for before its results are read.
use distributed_image_proces.Prelude.{
  ℕ, zero, suc, ◌+◌, ◌*◌, ◌≤◌, ◌<◌, String, ◌≡◌, refl, sym, ap, ◌∙◌, Bool, false, Option, List, [],
  ◌∷◌, arith, ltb, Bool-cases, length, take, drop, length-append, inl, inr, IfSome, IfSome-bind,
  IfSome-some,
}
use distributed_image_proces.Storage.Multipart.{
  Work, Part, Main, reading, draining, completed, aborted, Upload, start_upload, pick, UploadEvent,
  reads, drains, takes_work, leaves, uploads, fails, sends, completes, send_work, read_part,
  read_turn, take_work, is_reading, leave, drain_result, complete_upload, upload_step, Running,
  begins, goes,
}

length-drop : (n : ℕ) (xs : List ℕ) → n ≤ length xs → length (drop n xs) + n ≡ length xs
length-drop zero xs h = omega arith
length-drop (suc n) [] h = absurd (omega arith)
length-drop (suc n) (x ∷ xs) h = omega (arith, length-drop n xs (omega arith))

pub pick-length {ℓ} :
    {A : Type ℓ} (i : ℕ) (xs : List A)
    → IfSome (λ (r : A × List A). length r.1 + 1 ≡ length xs) (pick i xs)
unfolding pick
pick-length i [] = tt
pick-length zero (x ∷ xs) = omega arith
pick-length (suc i) (x ∷ xs) =
    IfSome-bind _ (pick i xs) _
      (λ r e. let l = IfSome-some _ _ r (pick-length i xs) e in omega (arith, l))

mul-suc : (k n : ℕ) → k * (n + 1) ≡ k * n + k
mul-suc k n = omega arith

mul_mono : (k n m : ℕ) → n ≤ m → k * n ≤ k * m
mul_mono zero n m h = omega arith
mul_mono (suc k) n m h = omega (arith, mul_mono k n m h)

-- The parts that have been cut off.
abbrev sent : Upload → ℕ
sent u = length u.work_ch + length u.uploading + length u.sending + u.failed + length u.result_ch

-- A part more, with room in the channel for it.
length-work_ch :
    (chunk : List ℕ) (u : Upload) → length (send_work chunk u).work_ch ≡ length u.work_ch + 1
length-work_ch chunk u = length-append u.work_ch (record { num = u.part_num; content = chunk } ∷ [])

sent-send_work : (chunk : List ℕ) (u : Upload) → sent (send_work chunk u) ≡ sent u + 1
sent-send_work chunk u = omega (arith, length-work_ch chunk u)

module _ (put_part : Work → String) (c k : ℕ) (bytes : List ℕ) where
  -- The caller still cuts off parts, and each goroutine and each place of a channel has at most one.
  record Hung (u : Upload) : Type 0 where
    rest : List ℕ
    at : u.main ≡ reading rest
    left : length bytes ≤ length rest + k * sent u
    crew : u.idle + length u.uploading + length u.sending + u.failed ≤ c
    queued : length u.work_ch ≤ c
    results : length u.result_ch ≤ c

  abbrev Keeps : Option Upload → Type 0
  Keeps o = IfSome Hung o

  module _ (many : k * (3 * c) < length bytes) where
    -- The bytes that are left make another part, and it is not the last one.
    more : (r s : ℕ) → length bytes ≤ r + k * s → s + 1 ≤ 3 * c → k ≤ r
    more r s h l = omega (arith, many, h, mul-suc k s, mul_mono k (s + 1) (3 * c) l)

    some_left : (r s : ℕ) → length bytes ≤ r + k * s → s ≤ 3 * c → 0 < r
    some_left r s h l = omega (arith, many, h, mul_mono k s (3 * c) l)

    read_part-Hung :
        (broken : Bool) (rest : List ℕ) (u : Upload) (h : Hung u)
        → h.rest ≡ rest
        → Keeps (read_part c k broken rest u)
    unfolding read_part
    read_part-Hung broken [] u h e = absurd (
        omega (
          arith,
          some_left (length h.rest) (sent u) h.left (omega (arith, h.crew, h.queued, h.results)),
          (let none_left : length h.rest ≡ 0 = ap length e in none_left),
        ))
    read_part-Hung broken (b ∷ bs) u h e = elim (Bool-cases (ltb (length u.work_ch) c)) [
      | inr full ↦ rw full tt
      | inl room ↦
          let same : length h.rest ≡ length (b ∷ bs) = ap length e in
          let free : length u.work_ch < c = ground (arith, room) in
          let long : k ≤ length (b ∷ bs) = omega (
            arith,
            same,
            more (length h.rest) (sent u) h.left (omega (arith, h.crew, free, h.results)),
          ) in
          let go_on : ltb (length (b ∷ bs)) k ≡ false = ground (arith, long) in
          let grown = ap (λ n. k * n) (sent-send_work (take k (b ∷ bs)) u) ∙ mul-suc k (sent u) in
          rw (room, go_on)
            (record {
              rest = drop k (b ∷ bs);
              at = refl;
              left = omega (arith, h.left, same, grown, length-drop k (b ∷ bs) long);
              crew = h.crew;
              queued = omega (arith, free, length-work_ch (take k (b ∷ bs)) u);
              results = h.results;
            })
    ]

    read_turn-Hung :
        (broken : Bool) (m : Main) (u : Upload)
        → m ≡ u.main
        → Hung u
        → Keeps (read_turn c k broken m u)
    unfolding read_turn
    read_turn-Hung broken (reading rest) u e h =
        read_part-Hung broken rest u h
          (let same : reading h.rest ≡ reading rest = sym (e ∙ h.at) in cc)
    read_turn-Hung broken (draining ps) u e h = tt
    read_turn-Hung broken (completed ps) u e h = tt
    read_turn-Hung broken aborted u e h = tt

    -- A worker moves on with its part.
    moved :
        (u u' : Upload) (h : Hung u)
        → u'.main ≡ u.main
        → sent u' ≡ sent u
        → u'.idle + length u'.uploading + length u'.sending + u'.failed
          ≡ u.idle + length u.uploading + length u.sending + u.failed
        → length u'.work_ch ≤ length u.work_ch
        → length u'.result_ch ≤ c
        → Hung u'
    moved u u' h m s w q r = record {
      rest = h.rest;
      at = m ∙ h.at;
      left = let b = h.left in let e = ap (λ n. k * n) s in omega (arith, b, e);
      crew = let b = h.crew in omega (arith, b, w);
      queued = let b = h.queued in omega (arith, b, q);
      results = r;
    }

    take_work-Hung :
        (n : ℕ) (ws : List Work) (u : Upload)
        → n ≡ u.idle
        → ws ≡ u.work_ch
        → Hung u
        → Keeps (take_work n ws u)
    unfolding take_work
    take_work-Hung zero ws u e g h = tt
    take_work-Hung (suc n) [] u e g h = tt
    take_work-Hung (suc n) (w ∷ ws) u e g h =
        let l = ap length g in
        moved u _ h refl (omega (arith, l)) (omega (arith, e)) (omega (arith, l)) h.results

    leave-Hung : (n : ℕ) (ws : List Work) (u : Upload) → Hung u → Keeps (leave n ws u)
    unfolding leave
    leave-Hung zero ws u h = tt
    leave-Hung (suc n) (w ∷ ws) u h = tt
    leave-Hung (suc n) [] u h = rw (ap is_reading h.at) tt

    drain_result-Hung :
        (m : Main) (rs : List Part) (u : Upload) → m ≡ u.main → Hung u → Keeps (drain_result m rs u)
    unfolding drain_result
    drain_result-Hung (reading rest) rs u e h = tt
    drain_result-Hung (draining ps) rs u e h = absurd (cc (e ∙ h.at))
    drain_result-Hung (completed ps) rs u e h = tt
    drain_result-Hung aborted rs u e h = tt

    complete_upload-Hung :
        (accepted : Bool) (m : Main) (u : Upload)
        → m ≡ u.main
        → Hung u
        → Keeps (complete_upload accepted m u)
    unfolding complete_upload
    complete_upload-Hung accepted (reading rest) u e h = tt
    complete_upload-Hung accepted (draining ps) u e h = absurd (cc (e ∙ h.at))
    complete_upload-Hung accepted (completed ps) u e h = tt
    complete_upload-Hung accepted aborted u e h = tt

    upload_step-Hung :
        (e : UploadEvent) (u : Upload) → Hung u → Keeps (upload_step put_part c k e u)
    unfolding upload_step
    upload_step-Hung (reads broken) u h = read_turn-Hung broken u.main u refl h
    upload_step-Hung drains u h = drain_result-Hung u.main u.result_ch u refl h
    upload_step-Hung takes_work u h = take_work-Hung u.idle u.work_ch u refl refl h
    upload_step-Hung leaves u h = leave-Hung u.idle u.work_ch u h
    upload_step-Hung (uploads i) u h = IfSome-bind Hung (pick i u.uploading) _ (λ r e.
        let l = IfSome-some _ _ r (pick-length i u.uploading) e in
        moved u _ h refl (omega (arith, l)) (omega (arith, l)) (omega arith) h.results)
    upload_step-Hung (fails i) u h = IfSome-bind Hung (pick i u.uploading) _ (λ r e.
        let l = IfSome-some _ _ r (pick-length i u.uploading) e in
        moved u _ h refl (omega (arith, l)) (omega (arith, l)) (omega arith) h.results)
    upload_step-Hung (sends i) u h = elim (Bool-cases (ltb (length u.result_ch) c)) [
      | inr full ↦ rw full tt
      | inl room ↦ rw room (
          IfSome-bind Hung (pick i u.sending) _ (λ r e.
            let l = IfSome-some _ _ r (pick-length i u.sending) e in
            let longer = length-append u.result_ch (r.0 ∷ []) in
            let free : length u.result_ch < c = ground (arith, room) in
            moved u _ h refl (omega (arith, l, longer)) (omega (arith, l)) (omega arith)
              (omega (arith, longer, free))))
    ]
    upload_step-Hung (completes accepted) u h = complete_upload-Hung accepted u.main u refl h

    Running-Hung : {u : Upload} → Running put_part c k bytes u → Hung u
    unfolding start_upload
    Running-Hung begins = record {
      rest = bytes;
      at = refl;
      left = omega arith;
      crew = omega arith;
      queued = omega arith;
      results = omega arith;
    }
    Running-Hung (goes {u} {u'} e h run) =
        IfSome-some Hung _ u' (upload_step-Hung e u (Running-Hung run)) h

    -- An input of more than three parts for each worker, of `k` bytes a part: however the goroutines
    -- take turns, MultipartUpload never gets out of the loop that cuts off the parts, so that it neither
    -- completes nor aborts the upload.
    pub Running-reading :
        {u : Upload} → Running put_part c k bytes u → (rest : List ℕ) × (u.main ≡ reading rest)
    Running-reading run = let h = Running-Hung run in (h.rest, h.at)
