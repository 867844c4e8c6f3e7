-- ===== src/Pipeline/Wal.antt =====
-- internal/pipeline/checkpoint.go: the frames of the write-ahead log, and what recovery reads. A
-- byte slice is a list of numbers below 256, and hash/crc32 is the parameter `crc`.
pub mod Bytes
pub mod Frames
pub mod Scanning
pub mod Crashes
pub mod Runs
pub mod Losses
mod Tests
use distributed_image_proces.Prelude.{
  ◌>>=◌, ℕ, zero, suc, ◌+◌, ◌*◌, ◌/◌, ◌%◌, ◌^◌, Bool, not, ◌&&◌, ◌||◌, Option, none, some, List, [],
  ◌∷◌, ◌++◌, ltb, ◌==◌, if◌then◌else◌, length, take, drop,
}

-- `PutUint32` and `PutUint64` at `n` of 4 and 8: the `n` low bytes, highest first.
unfoldable pub put_uint : ℕ → ℕ → List ℕ
put_uint zero v = []
put_uint (suc n) v = put_uint n (v / 256) ++ (v % 256) ∷ []

-- `Uint32` and `Uint64`, with what has been read.
unfoldable pub get_uint_from : ℕ → List ℕ → ℕ
get_uint_from acc [] = acc
get_uint_from acc (b ∷ bs) = get_uint_from (acc * 256 + b) bs

unfoldable pub get_uint : List ℕ → ℕ
unfolding get_uint_from
get_uint bs = get_uint_from 0 bs

abbrev pub frame_header_len : ℕ
frame_header_len = 8

-- What readFrame answers: the sequence number, the payload and the length of the frame, or its errors.
pub data Frame : Type 0 where
  intact : ℕ → List ℕ → ℕ → Frame
  short_read : Frame
  crc_mismatch : Frame

-- The bytes of a file; one that does not exist has none.
abbrev pub bytes_of : Option (List ℕ) → List ℕ
bytes_of none = []
bytes_of (some bytes) = bytes

-- What recoverLog has read: the offset, `records` and `maxSeq`.
pub record Scan : Type 0 where
  pub off : ℕ
  pub records : List (List ℕ)
  pub max_seq : ℕ

-- The two files. `none` is a file that does not exist.
pub record Disk : Type 0 where
  pub log : Option (List ℕ)
  pub snap : Option (List ℕ)

pub record Recovery : Type 0 where
  pub snapshot : Option (List ℕ)
  pub records : List (List ℕ)

-- The state of an open log: the sequence number and the files.
pub record Wal : Type 0 where
  pub seq : ℕ
  pub disk : Disk

module _ (crc : List ℕ → ℕ) where
  -- frame
  unfoldable pub body : ℕ → List ℕ → List ℕ
  unfolding put_uint
  body seq payload = put_uint 8 seq ++ payload

  unfoldable pub frame_of : List ℕ → List ℕ
  unfolding put_uint
  frame_of b = put_uint 4 (length b % 2 ^ 32) ++ (put_uint 4 (crc b) ++ b)

  unfoldable pub frame : ℕ → List ℕ → List ℕ
  unfolding body frame_of
  frame seq payload = frame_of (body seq payload)

  -- readFrame after its length check, for the body, the checksum that is wanted, and the end.
  unfoldable pub read_body : List ℕ → ℕ → ℕ → Frame
  unfolding get_uint
  read_body b want end =
      if crc b == want then intact (get_uint (take 8 b)) (drop 8 b) end else crc_mismatch

  unfoldable pub read_sized : ℕ → List ℕ → Frame
  unfolding read_body
  read_sized body_len data_ =
      let end = frame_header_len + body_len in
      if ltb body_len 8 || ltb (length data_) end
      then short_read
      else read_body (take body_len (drop frame_header_len data_))
          (get_uint (take 4 (drop 4 data_))) end

  -- readFrame
  unfoldable pub read_frame : List ℕ → Frame
  unfolding read_sized
  read_frame data_ =
      if ltb (length data_) frame_header_len
      then short_read
      else read_sized (get_uint (take 4 data_)) data_

  -- One record of recoverLog's loop.
  unfoldable pub scanned : ℕ → ℕ → List ℕ → ℕ → Scan → Scan
  scanned snap_seq seq payload n s = record {
    off = s.off + n;
    max_seq = if ltb s.max_seq seq then seq else s.max_seq;
    records = if ltb snap_seq seq then s.records ++ payload ∷ [] else s.records;
  }

  -- recoverLog's loop over what is left of the log. It ends at the end of the log or at a bad frame.
  unfoldable pub scan_log : ℕ → ℕ → List ℕ → Scan → Scan
  unfolding read_frame scanned
  scan_log zero snap_seq rest s = s
  scan_log (suc fuel) snap_seq [] s = s
  scan_log (suc fuel) snap_seq (b ∷ bs) s = elim (read_frame (b ∷ bs)) [
    | intact seq payload n ↦
        scan_log fuel snap_seq (drop n (b ∷ bs)) (scanned snap_seq seq payload n s)
    | short_read ↦ s
    | crc_mismatch ↦ s
  ]

  -- recoverLog on a log that exists; every frame takes a byte at least, so the fuel is enough.
  unfoldable pub scan_all : ℕ → List ℕ → Scan
  unfolding scan_log
  scan_all snap_seq log =
      scan_log (length log) snap_seq log (record { off = 0; records = []; max_seq = 0 })

  -- readSnapshot: the payload and the sequence number, or `none` for a corrupt snapshot.
  unfoldable pub read_snapshot : Option (List ℕ) → Option (Option (List ℕ) × ℕ)
  unfolding read_frame
  read_snapshot none = some (none, 0)
  read_snapshot (some file) = elim (read_frame file) [
    | intact seq payload n ↦ some (some payload, seq)
    | short_read ↦ none
    | crc_mismatch ↦ none
  ]

  -- OpenWAL after readSnapshot. The file is cut where the scan ended, and made if it is missing.
  unfoldable pub open_after : Disk → Option (List ℕ) → ℕ → Wal × Recovery
  unfolding scan_all
  open_after d snapshot snap_seq =
      let s = scan_all snap_seq (bytes_of d.log) in
      (
        record {
          seq = if ltb snap_seq s.max_seq then s.max_seq else snap_seq;
          disk = record d { log = some (take s.off (bytes_of d.log)) };
        },
        record { snapshot = snapshot; records = s.records },
      )

  -- OpenWAL; `none` is the error of a corrupt snapshot.
  unfoldable pub open_wal : Disk → Option (Wal × Recovery)
  unfolding read_snapshot open_after
  open_wal d = do (snapshot, snap_seq) ← read_snapshot d.snap; some (open_after d snapshot snap_seq)

  -- What a write to the log leaves in it.
  unfoldable pub extend : List ℕ → Disk → Disk
  extend bytes d = record d { log = some (bytes_of d.log ++ bytes) }

  -- Append: `written` of the frame's bytes reach the file, and the answer is whether all did and
  -- the sync succeeded.
  unfoldable pub append : ℕ → Bool → List ℕ → Wal → Bool × Wal
  unfolding frame extend
  append written synced payload w =
      let seq = (w.seq + 1) % 2 ^ 64 in
      let bytes = frame seq payload in
      (
        not (ltb written (length bytes)) && synced,
        record { seq = seq; disk = extend (take written bytes) w.disk },
      )

  -- Checkpoint up to and with the rename, and its truncation of the log.
  unfoldable pub put_snapshot : List ℕ → Wal → Wal
  unfolding frame
  put_snapshot snapshot w = record w { disk = record w.disk { snap = some (frame w.seq snapshot) } }

  unfoldable pub truncate_log : Wal → Wal
  truncate_log w = record w { disk = record w.disk { log = some [] } }

  unfoldable pub checkpoint : List ℕ → Wal → Wal
  unfolding put_snapshot truncate_log
  checkpoint snapshot w = truncate_log (put_snapshot snapshot w)
