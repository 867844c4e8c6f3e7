-- ===== src/Pipeline/Wal/Scanning.antt =====
-- What recoverLog reads of a log that was written frame by frame.
use distributed_image_proces.Prelude.{
  drop-append, ℕ, zero, suc, ◌+◌, ◌-◌, ◌≤◌, ◌<◌, ◌≡◌, refl, sym, ap, ◌∙◌, inl, inr, List, [], ◌∷◌,
  ◌++◌, arith, ltb, if◌then◌else◌, Bool-cases, length, drop, length-append,
}
use mathlib.Core.List.{append_assoc, append-nil}
use distributed_image_proces.Pipeline.Wal.{
  intact, short_read, Scan, frame, read_frame, scanned, scan_log,
}
use distributed_image_proces.Pipeline.Wal.Frames.{IsCrc, Framable, length-frame, read_frame-frame}

-- A record in the log: its number and its payload.
abbrev pub Entry : Type 0
Entry = ℕ × List ℕ

abbrev pub AllFramable : List Entry → Type 0
AllFramable [] = Unit
AllFramable ((seq, payload) ∷ es) = Framable seq payload × AllFramable es

abbrev pub AllUpTo : ℕ → List Entry → Type 0
AllUpTo n [] = Unit
AllUpTo n ((seq, payload) ∷ es) = (seq ≤ n) × AllUpTo n es

-- The payloads of the records with a number past `hw`.
unfoldable pub newer : ℕ → List Entry → List (List ℕ)
newer hw [] = []
newer hw ((seq, payload) ∷ es) = if ltb hw seq then payload ∷ newer hw es else newer hw es

pub AllFramable-append :
    (es fs : List Entry) → AllFramable es → AllFramable fs → AllFramable (es ++ fs)
AllFramable-append [] fs a b = b
AllFramable-append ((seq, payload) ∷ es) fs a b = (a.0, AllFramable-append es fs a.1 b)

pub AllUpTo-append :
    (n : ℕ) (es fs : List Entry) → AllUpTo n es → AllUpTo n fs → AllUpTo n (es ++ fs)
AllUpTo-append n [] fs a b = b
AllUpTo-append n ((seq, payload) ∷ es) fs a b = (a.0, AllUpTo-append n es fs a.1 b)

pub AllUpTo-mono : (n m : ℕ) (es : List Entry) → n ≤ m → AllUpTo n es → AllUpTo m es
AllUpTo-mono n m [] h a = tt
AllUpTo-mono n m ((seq, payload) ∷ es) h a = (omega arith, AllUpTo-mono n m es h a.1)

pub newer-append : (hw : ℕ) (es fs : List Entry) → newer hw (es ++ fs) ≡ newer hw es ++ newer hw fs
unfolding newer
newer-append hw [] fs = refl
newer-append hw ((seq, payload) ∷ es) fs = ground (arith, newer-append hw es fs)

-- A snapshot that covers every number leaves nothing to replay.
pub newer-AllUpTo : (hw : ℕ) (es : List Entry) → AllUpTo hw es → newer hw es ≡ []
unfolding newer
newer-AllUpTo hw [] a = refl
newer-AllUpTo hw ((seq, payload) ∷ es) a = ground (arith, newer-AllUpTo hw es a.1)

module _ (crc : List ℕ → ℕ) where
  unfoldable pub log_of : List Entry → List ℕ
  log_of [] = []
  log_of ((seq, payload) ∷ es) = frame crc seq payload ++ log_of es

  pub log_of-append : (es fs : List Entry) → log_of (es ++ fs) ≡ log_of es ++ log_of fs
  unfolding log_of
  log_of-append [] fs = refl
  log_of-append ((seq, payload) ∷ es) fs =
      ap (λ l. frame crc seq payload ++ l) (log_of-append es fs)
      ∙ sym (append_assoc (frame crc seq payload) (log_of es) (log_of fs))

  -- What the scan adds up to, with its highest number.
  pub scan_entries : ℕ → List Entry → Scan → Scan
  scan_entries hw [] s = s
  scan_entries hw ((seq, payload) ∷ es) s =
      scan_entries hw es (scanned crc hw seq payload (16 + length payload) s)

  -- The rest of the log ends the scan.
  pub data Ends : List ℕ → Type 0 where
    at_end : Ends []
    torn : (x : List ℕ) → read_frame crc x ≡ short_read → Ends x

  scan_log-Ends :
      (fuel hw : ℕ) (rest : List ℕ) (s : Scan) → Ends rest → scan_log crc fuel hw rest s ≡ s
  unfolding scan_log
  scan_log-Ends zero hw rest s e = refl
  scan_log-Ends (suc fuel) hw [] s e = refl
  scan_log-Ends (suc fuel) hw (b ∷ bs) s (torn _ h) = rw (scan_log, h) refl

  scan_log-step :
      (fuel hw seq n : ℕ) (payload x : List ℕ) (s : Scan)
      → read_frame crc x ≡ intact seq payload n
      → 0 < length x
      → scan_log crc (suc fuel) hw x s
        ≡ scan_log crc fuel hw (drop n x) (scanned crc hw seq payload n s)
  unfolding scan_log
  scan_log-step fuel hw seq n payload [] s h l = absurd (omega arith)
  scan_log-step fuel hw seq n payload (b ∷ bs) s h l = rw (scan_log, h) refl

  module _ (seq : ℕ) (payload rest : List ℕ) where
    length-frame_rest : length (frame crc seq payload ++ rest) ≡ 16 + length payload + length rest
    length-frame_rest =
        omega (arith, length-append (frame crc seq payload) rest, length-frame crc seq payload)

    frame_step :
        (fuel hw : ℕ) (s : Scan)
        → IsCrc crc
        → Framable seq payload
        → scan_log crc (suc fuel) hw (frame crc seq payload ++ rest) s
          ≡ scan_log crc fuel hw rest (scanned crc hw seq payload (16 + length payload) s)
    frame_step fuel hw s c f =
        let n = 16 + length payload in
        scan_log-step fuel hw seq n payload (frame crc seq payload ++ rest) s
          (read_frame-frame crc seq payload rest c f) (omega (arith, length-frame_rest))
        ∙ ap (λ l. scan_log crc fuel hw l (scanned crc hw seq payload n s))
            (drop-append n (frame crc seq payload) rest (sym (length-frame crc seq payload)))

  -- A log of whole frames is read to its end, or up to the torn frame behind them.
  pub scan_log-log_of :
      (es : List Entry) (fuel hw : ℕ) (rest : List ℕ) (s : Scan)
      → IsCrc crc
      → AllFramable es
      → Ends rest
      → length (log_of es ++ rest) ≤ fuel
      → scan_log crc fuel hw (log_of es ++ rest) s ≡ scan_entries hw es s
  unfolding log_of scan_entries
  scan_log-log_of [] fuel hw rest s c a e h = scan_log-Ends fuel hw rest s e
  scan_log-log_of ((seq, payload) ∷ es) fuel hw rest s c a e h =
      let shape = append_assoc (frame crc seq payload) (log_of es) rest in
      let size = length-frame_rest seq payload (log_of es ++ rest) in
      let fuel' = fuel - 1 in
      let same : fuel ≡ suc fuel' = omega (arith, ap length shape, size) in
      ap (λ x. scan_log crc fuel hw x s) shape
      ∙ ap (λ n. scan_log crc n hw (frame crc seq payload ++ (log_of es ++ rest)) s) same
      ∙ frame_step seq payload (log_of es ++ rest) fuel' hw s c a.0
      ∙ scan_log-log_of es fuel' hw rest (scanned crc hw seq payload (16 + length payload) s) c a.1
          e (omega (arith, ap length shape, size))

  scanned_max :
      (hw seq : ℕ) (payload : List ℕ) (s : Scan)
      → let m = (scanned crc hw seq payload (16 + length payload) s).max_seq in
        (seq ≤ m) × (s.max_seq ≤ m)
  unfolding scanned
  scanned_max hw seq payload s = ground arith

  scanned_least :
      (hw seq : ℕ) (payload : List ℕ) (s : Scan) (n : ℕ)
      → s.max_seq ≤ n
      → seq ≤ n
      → (scanned crc hw seq payload (16 + length payload) s).max_seq ≤ n
  unfolding scanned
  scanned_least hw seq payload s n h g = ground arith

  scanned_records :
      (hw seq : ℕ) (payload : List ℕ) (s : Scan) (es : List Entry)
      → (scanned crc hw seq payload (16 + length payload) s).records ++ newer hw es
        ≡ s.records ++ newer hw ((seq, payload) ∷ es)
  unfolding scanned newer
  scanned_records hw seq payload s es = elim (Bool-cases (ltb hw seq)) [
    | inl e ↦ rw (scanned, e) (append_assoc s.records (payload ∷ []) (newer hw es))
    | inr e ↦ rw (scanned, e) refl
  ]

  scanned_off :
      (seq : ℕ) (payload : List ℕ) (hw : ℕ) (s : Scan) (es : List Entry) (r : Scan)
      → r.off ≡ (scanned crc hw seq payload (16 + length payload) s).off + length (log_of es)
      → r.off ≡ s.off + length (frame crc seq payload ++ log_of es)
  unfolding scanned
  scanned_off seq payload hw s es r h = omega (arith, h, length-frame_rest seq payload (log_of es))

  -- What the scan adds up to, in closed form.
  pub record Scanned (hw : ℕ) (es : List Entry) (s r : Scan) : Type 0 where
    pub off : r.off ≡ s.off + length (log_of es)
    pub records : r.records ≡ s.records ++ newer hw es
    pub upto : AllUpTo r.max_seq es
    pub grows : s.max_seq ≤ r.max_seq
    pub reached : (n : ℕ) → s.max_seq ≤ n → AllUpTo n es → r.max_seq ≤ n

  pub scan_entries-Scanned :
      (hw : ℕ) (es : List Entry) (s : Scan) → Scanned hw es s (scan_entries hw es s)
  unfolding scan_entries newer log_of
  scan_entries-Scanned hw [] s = record {
    off = omega arith;
    records = sym (append-nil s.records);
    upto = tt;
    grows = omega arith;
    reached = λ n h a. h;
  }
  scan_entries-Scanned hw ((seq, payload) ∷ es) s =
      let s' = scanned crc hw seq payload (16 + length payload) s in
      let r : Scanned hw es s' (scan_entries hw es s') = scan_entries-Scanned hw es s' in
      record {
        off = scanned_off seq payload hw s es (scan_entries hw es s') r.off;
        records = r.records ∙ scanned_records hw seq payload s es;
        upto = (omega (arith, r.grows, scanned_max hw seq payload s), r.upto);
        grows = omega (arith, r.grows, scanned_max hw seq payload s);
        reached = λ n h a. r.reached n (scanned_least hw seq payload s n h a.0) a.1;
      }
