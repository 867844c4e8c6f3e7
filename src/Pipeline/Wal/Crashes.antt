-- ===== src/Pipeline/Wal/Crashes.antt =====
-- The log as its clients see it, a snapshot and the records since, and what a crash leaves of it.
use distributed_image_proces.Prelude.{
  take-append, ℕ, ◌≤◌, ◌≡◌, refl, sym, ap, ◌∙◌, Option, none, some, List, [], ◌∷◌, ◌++◌, arith, ltb,
  if◌then◌else◌, take,
}
use mathlib.Core.List.{append-nil}
use distributed_image_proces.Pipeline.Wal.{
  Scan, Disk, Recovery, Wal, bytes_of, frame, read_frame, scan_all, read_snapshot, open_after,
  open_wal,
}
use distributed_image_proces.Pipeline.Wal.Frames.{IsCrc, Framable, read_frame-frame}
use distributed_image_proces.Pipeline.Wal.Scanning.{
  Entry, AllFramable, AllUpTo, newer, AllUpTo-mono, log_of, Ends, scan_entries, scan_log-log_of,
  Scanned, scan_entries-Scanned,
}

-- The client's view after another record, and after a checkpoint.
abbrev pub with_record : List ℕ → Recovery → Recovery
with_record payload r = record r { records = r.records ++ payload ∷ [] }

abbrev pub compacted : List ℕ → Recovery
compacted snapshot = record { snapshot = some snapshot; records = [] }

module _ (crc : List ℕ → ℕ) where
  -- A snapshot file, the snapshot in it, and the number that it covers.
  pub data Snapped : Option (List ℕ) → Option (List ℕ) → ℕ → Type 0 where
    fresh : Snapped none none 0
    taken :
        (seq : ℕ) (snapshot : List ℕ)
        → Framable seq snapshot
        → Snapped (some (frame crc seq snapshot)) (some snapshot) seq

  -- The files hold the client's view, and perhaps a torn frame behind it.
  pub record Stores (d : Disk) (tail : List ℕ) (r : Recovery) (seq : ℕ) : Type 0 where
    pub entries : List Entry
    pub covered : ℕ
    pub log : bytes_of d.log ≡ log_of crc entries ++ tail
    pub framable : AllFramable entries
    pub upto : AllUpTo seq entries
    pub snap : Snapped d.snap r.snapshot covered
    pub behind : covered ≤ seq
    pub newer_ones : newer covered entries ≡ r.records

  -- A log in use: its files hold the view and nothing else.
  abbrev pub Implements : Wal → Recovery → Type 0
  Implements w r = Stores w.disk [] r w.seq

  read_snapshot-Snapped :
      (file snapshot : Option (List ℕ)) (seq : ℕ)
      → IsCrc crc
      → Snapped file snapshot seq
      → read_snapshot crc file ≡ some (snapshot, seq)
  unfolding read_snapshot
  read_snapshot-Snapped file snapshot seq c fresh = refl
  read_snapshot-Snapped file snapshot seq c (taken n s f) =
      rw
        (
          read_snapshot,
          ap (read_frame crc) (sym (append-nil (frame crc n s))) ∙ read_frame-frame crc n s [] c f,
        )
        refl

  -- What OpenWAL makes of files that hold a view.
  pub record Opens (d : Disk) (r : Recovery) : Type 0 where
    pub wal : Wal
    pub opened : open_wal crc d ≡ some (wal, r)
    pub implements : Implements wal r

  scan_all-Stores :
      (d : Disk) (tail : List ℕ) (r : Recovery) (seq : ℕ)
      → IsCrc crc
      → (s : Stores d tail r seq) → Ends crc tail
      → scan_all crc s.covered (bytes_of d.log)
        ≡ scan_entries crc s.covered s.entries (record { off = 0; records = []; max_seq = 0 })
  unfolding scan_all
  scan_all-Stores d tail r seq c s e =
      rw (s.log) (scan_log-log_of crc s.entries _ s.covered tail _ c s.framable e (omega arith))

  -- The log that is open after a scan that has read `r`.
  reopened : Disk → ℕ → Scan → Wal
  reopened d covered r = record {
    seq = if ltb covered r.max_seq then r.max_seq else covered;
    disk = record d { log = some (take r.off (bytes_of d.log)) };
  }

  open_wal-reopened :
      (d : Disk) (snapshot : Option (List ℕ)) (covered : ℕ) (r : Scan)
      → read_snapshot crc d.snap ≡ some (snapshot, covered)
      → scan_all crc covered (bytes_of d.log) ≡ r
      → open_wal crc d
        ≡ some (reopened d covered r, record { snapshot = snapshot; records = r.records })
  unfolding open_wal open_after reopened
  open_wal-reopened d snapshot covered r h g = rw (open_wal, h, open_after, g) refl

  reopened-Implements :
      (d : Disk) (tail : List ℕ) (r : Recovery) (seq : ℕ) (sc : Scan)
      → (s : Stores d tail r seq)
      → Scanned crc s.covered s.entries (record { off = 0; records = []; max_seq = 0 }) sc
      → Implements (reopened d s.covered sc) r
  unfolding reopened
  reopened-Implements d tail r seq sc s n = record {
    entries = s.entries;
    covered = s.covered;
    log =
        ap (take sc.off) s.log
        ∙ take-append sc.off (log_of crc s.entries) tail (omega (arith, n.off))
        ∙ sym (append-nil (log_of crc s.entries));
    framable = s.framable;
    upto = AllUpTo-mono sc.max_seq _ s.entries (ground arith) n.upto;
    snap = s.snap;
    behind = ground arith;
    newer_ones = s.newer_ones;
  }

  -- Recovery finds the view, and cuts the torn frame away.
  pub open_wal-Opens :
      (d : Disk) (tail : List ℕ) (r : Recovery) (seq : ℕ)
      → IsCrc crc
      → Stores d tail r seq
      → Ends crc tail
      → Opens d r
  open_wal-Opens d tail r seq c s e =
      let start : Scan = record { off = 0; records = []; max_seq = 0 } in
      let sc : Scan = scan_entries crc s.covered s.entries start in
      let n : Scanned crc s.covered s.entries start sc =
        scan_entries-Scanned crc s.covered s.entries start in
      let found : sc.records ≡ r.records = n.records ∙ s.newer_ones in
      record {
        wal = reopened d s.covered sc;
        opened =
            open_wal-reopened d r.snapshot s.covered sc
              (read_snapshot-Snapped d.snap r.snapshot s.covered c s.snap)
              (scan_all-Stores d tail r seq c s e)
            ∙ (λ i. some (reopened d s.covered sc, record r { records = found i }));
        implements = reopened-Implements d tail r seq sc s n;
      }

  -- A log that OpenWAL has just made.
  pub empty-Implements :
      Implements
        (record { seq = 0; disk = record { log = some []; snap = none } })
        (record { snapshot = none; records = [] })
  unfolding log_of newer
  empty-Implements = record {
    entries = [];
    covered = 0;
    log = refl;
    framable = tt;
    upto = tt;
    snap = fresh;
    behind = omega arith;
    newer_ones = refl;
  }
