-- ===== src/Pipeline/Wal/Runs.antt =====
-- Appends and checkpoints, whole or cut short by a crash, as steps on the log and on the client's view.
use distributed_image_proces.Prelude.{
  take-append, subst, ℕ, ◌+◌, ◌%◌, ◌^◌, ◌<◌, ◌≡◌, refl, sym, ap, ◌∙◌, Bool, true, some, List, [],
  ◌∷◌, ◌++◌, arith, length, take,
}
use mathlib.Core.List.{append-nil}
use distributed_image_proces.Pipeline.Wal.{
  Disk, Recovery, Wal, bytes_of, frame, open_wal, extend, append, put_snapshot, truncate_log,
  checkpoint,
}
use distributed_image_proces.Pipeline.Wal.Frames.{IsCrc, read_frame_torn}
use distributed_image_proces.Pipeline.Wal.Scanning.{
  newer, AllFramable-append, AllUpTo-append, AllUpTo-mono, newer-append, newer-AllUpTo, log_of,
  log_of-append, at_end, torn,
}
use distributed_image_proces.Pipeline.Wal.Crashes.{
  with_record, compacted, Snapped, taken, Stores, Implements, Opens, open_wal-Opens,
}

pub take_all : (n : ℕ) (xs : List ℕ) → n ≡ length xs → take n xs ≡ xs
take_all n xs h = ap (take n) (sym (append-nil xs)) ∙ take-append n xs [] h

last_newer :
    (covered seq : ℕ) (payload : List ℕ)
    → covered < seq
    → newer covered ((seq, payload) ∷ []) ≡ payload ∷ []
unfolding newer
last_newer covered seq payload h = ground arith

log_of_one :
    (crc : List ℕ → ℕ) (seq : ℕ) (payload : List ℕ)
    → log_of crc ((seq, payload) ∷ []) ≡ frame crc seq payload
unfolding log_of
log_of_one crc seq payload = append-nil (frame crc seq payload)

some_inj : {a b : Wal × Recovery} → some a ≡ some b → a ≡ b
some_inj h = cc

module _ (crc : List ℕ → ℕ) where
  -- Append of a record that the format holds, with `written` bytes of the frame in the file.
  module _ (w : Wal) (r : Recovery) (payload : List ℕ) (i : Implements crc w r)
      (room : w.seq + 1 < 2 ^ 64) (fits : 8 + length payload < 2 ^ 32) where
    appended_bytes :
        (written : ℕ) (synced : Bool)
        → bytes_of ((append crc written synced payload w).1).disk.log
          ≡ log_of crc i.entries ++ take written (frame crc (w.seq + 1) payload)
    unfolding append extend
    appended_bytes written synced =
        let same : (w.seq + 1) % 2 ^ 64 ≡ w.seq + 1 = omega arith in
        (λ j.
          (i.log ∙ append-nil (log_of crc i.entries)) j
          ++ take written (frame crc (same j) payload))

    append-disk :
        (written : ℕ) (synced : Bool)
        → (((append crc written synced payload w).1).seq ≡ w.seq + 1)
          × (((append crc written synced payload w).1).disk.snap ≡ w.disk.snap)
    unfolding append extend
    append-disk written synced = (omega arith, refl)

    one_more : newer i.covered (i.entries ++ (w.seq + 1, payload) ∷ []) ≡ r.records ++ payload ∷ []
    one_more = newer-append i.covered i.entries ((w.seq + 1, payload) ∷ []) ∙ (λ j.
        i.newer_ones j ++ last_newer i.covered (w.seq + 1) payload (omega (arith, i.behind)) j)

    whole_log :
        log_of crc i.entries ++ frame crc (w.seq + 1) payload
        ≡ log_of crc (i.entries ++ (w.seq + 1, payload) ∷ []) ++ []
    whole_log =
        ap (λ l. log_of crc i.entries ++ l) (sym (log_of_one crc (w.seq + 1) payload))
        ∙ sym (log_of-append crc i.entries ((w.seq + 1, payload) ∷ []))
        ∙ sym (append-nil (log_of crc (i.entries ++ (w.seq + 1, payload) ∷ [])))

    -- All of the frame reaches the file: the client has one more record.
    append-Implements :
        (written : ℕ) (synced : Bool)
        → written ≡ length (frame crc (w.seq + 1) payload)
        → Implements crc (append crc written synced payload w).1 (with_record payload r)
    append-Implements written synced h =
        let d = append-disk written synced in
        record {
          entries = i.entries ++ (w.seq + 1, payload) ∷ [];
          covered = i.covered;
          log =
              appended_bytes written synced
              ∙ ap (λ l. log_of crc i.entries ++ l)
                  (take_all written (frame crc (w.seq + 1) payload) h)
              ∙ whole_log;
          framable =
              AllFramable-append i.entries ((w.seq + 1, payload) ∷ []) i.framable
                ((room, fits), tt);
          upto =
              AllUpTo-append _ i.entries ((w.seq + 1, payload) ∷ [])
                (AllUpTo-mono w.seq _ i.entries (omega (arith, d.0)) i.upto)
                (omega (arith, d.0), tt);
          snap = subst (λ f. Snapped crc f r.snapshot i.covered) (sym d.1) i.snap;
          behind = omega (arith, d.0, i.behind);
          newer_ones = one_more;
        }

    -- A part of it does: the client's view stands, with a torn frame behind it.
    pub append-Stores :
        (written : ℕ) (synced : Bool)
        → Stores crc
            ((append crc written synced payload w).1).disk
            (take written (frame crc (w.seq + 1) payload))
            r
            w.seq
    append-Stores written synced =
        let d = append-disk written synced in
        record {
          entries = i.entries;
          covered = i.covered;
          log = appended_bytes written synced;
          framable = i.framable;
          upto = i.upto;
          snap = subst (λ f. Snapped crc f r.snapshot i.covered) (sym d.1) i.snap;
          behind = i.behind;
          newer_ones = i.newer_ones;
        }

  -- A checkpoint before and after it cuts the log.
  module _ (w : Wal) (r : Recovery) (snapshot : List ℕ) (i : Implements crc w r)
      (room : w.seq < 2 ^ 64) (fits : 8 + length snapshot < 2 ^ 32) where
    put_snapshot-Implements : Implements crc (put_snapshot crc snapshot w) (compacted snapshot)
    unfolding put_snapshot
    put_snapshot-Implements = record {
      entries = i.entries;
      covered = w.seq;
      log = i.log;
      framable = i.framable;
      upto = i.upto;
      snap = taken w.seq snapshot (room, fits);
      behind = omega arith;
      newer_ones = newer-AllUpTo w.seq i.entries i.upto;
    }

    checkpoint-Implements : Implements crc (checkpoint crc snapshot w) (compacted snapshot)
    unfolding checkpoint put_snapshot truncate_log log_of newer
    checkpoint-Implements = record {
      entries = [];
      covered = w.seq;
      log = refl;
      framable = tt;
      upto = tt;
      snap = taken w.seq snapshot (room, fits);
      behind = omega arith;
      newer_ones = refl;
    }

  -- The steps of a log, with what they do to its client's view. A crash is followed by OpenWAL: in an
  -- Append before all of the frame is in the file, in a Checkpoint between the rename and the
  -- truncation, or between calls.
  pub data Step : Wal → Recovery → Wal → Recovery → Type 0 where
    appends :
        (w : Wal) (r : Recovery) (payload : List ℕ)
        → w.seq + 1 < 2 ^ 64
        → 8 + length payload < 2 ^ 32
        → Step w r
            (append crc (length (frame crc (w.seq + 1) payload)) true payload w).1
            (with_record payload r)
    tears :
        (w : Wal) (r : Recovery) (payload : List ℕ) (written : ℕ) (synced : Bool) (w' : Wal)
        (r' : Recovery)
        → w.seq + 1 < 2 ^ 64
        → 8 + length payload < 2 ^ 32
        → written < length (frame crc (w.seq + 1) payload)
        → open_wal crc ((append crc written synced payload w).1).disk ≡ some (w', r')
        → Step w r w' r
    saves :
        (w : Wal) (r : Recovery) (snapshot : List ℕ)
        → w.seq < 2 ^ 64
        → 8 + length snapshot < 2 ^ 32
        → Step w r (checkpoint crc snapshot w) (compacted snapshot)
    half_saves :
        (w : Wal) (r : Recovery) (snapshot : List ℕ) (w' : Wal) (r' : Recovery)
        → w.seq < 2 ^ 64
        → 8 + length snapshot < 2 ^ 32
        → open_wal crc (put_snapshot crc snapshot w).disk ≡ some (w', r')
        → Step w r w' (compacted snapshot)
    restarts :
        (w : Wal) (r : Recovery) (w' : Wal) (r' : Recovery)
        → open_wal crc w.disk ≡ some (w', r')
        → Step w r w' r

  pub data Run (w : Wal) (r : Recovery) : Wal → Recovery → Type 0 where
    here : Run w r w r
    next : {w₁ w₂ : Wal} {r₁ r₂ : Recovery} → Run w r w₁ r₁ → Step w₁ r₁ w₂ r₂ → Run w r w₂ r₂

  Opens-Implements :
      (d : Disk) (r r' : Recovery) (w' : Wal)
      → Opens crc d r
      → open_wal crc d ≡ some (w', r')
      → Implements crc w' r
  Opens-Implements d r r' w' o e =
      let same : o.wal ≡ w' = ap (λ x. x.0) (some_inj (sym o.opened ∙ e)) in
      subst (λ x. Implements crc x r) same o.implements

  pub Step-Implements :
      {w w' : Wal} {r r' : Recovery}
      → IsCrc crc
      → Step w r w' r'
      → Implements crc w r
      → Implements crc w' r'
  Step-Implements c (appends w r payload room fits) i =
      append-Implements w r payload i room fits (length (frame crc (w.seq + 1) payload)) true refl
  Step-Implements c (tears w r payload written synced w' r' room fits short e) i =
      Opens-Implements _ r r' w'
        (open_wal-Opens crc _ _ r w.seq c (append-Stores w r payload i room fits written synced)
          (torn _ (read_frame_torn crc (w.seq + 1) written payload (room, fits) short)))
        e
  Step-Implements c (saves w r snapshot room fits) i =
      checkpoint-Implements w r snapshot i room fits
  Step-Implements c (half_saves w r snapshot w' r' room fits e) i =
      Opens-Implements _ (compacted snapshot) r' w'
        (open_wal-Opens crc _ [] (compacted snapshot) (put_snapshot crc snapshot w).seq c
          (put_snapshot-Implements w r snapshot i room fits) at_end)
        e
  Step-Implements c (restarts w r w' r' e) i =
      Opens-Implements _ r r' w' (open_wal-Opens crc w.disk [] r w.seq c i at_end) e

  Run-Implements :
      {w : Wal} {r : Recovery} {w' : Wal} {r' : Recovery}
      → IsCrc crc
      → Implements crc w r
      → Run w r w' r'
      → Implements crc w' r'
  Run-Implements c i here = i
  Run-Implements c i (next run s) = Step-Implements c s (Run-Implements c i run)

  -- With a checksum of 32 bits, numbers below 2 ^ 64 and bodies below 2 ^ 32 bytes: in any run of
  -- appends, checkpoints and crashes in between or in the midst of them, OpenWAL succeeds and
  -- recovers exactly the last snapshot and the records appended in full since.
  pub Run-open_wal :
      {w w' : Wal} {r r' : Recovery}
      → IsCrc crc
      → Implements crc w r
      → Run w r w' r'
      → (v : Wal) × (open_wal crc w'.disk ≡ some (v, r')) × Implements crc v r'
  Run-open_wal {w' = w'} {r' = r'} c i run =
      let o : Opens crc w'.disk r' =
        open_wal-Opens crc w'.disk [] r' w'.seq c (Run-Implements c i run) at_end in
      (o.wal, o.opened, o.implements)
