-- ===== src/Pipeline/Wal/Tests.antt =====
-- A log with one record, under a checksum that is the length, and the theorems at it.
use distributed_image_proces.Prelude.{
  ℕ, ◌%◌, ◌^◌, ◌≡◌, true, false, none, some, List, [], ◌∷◌, arith, length,
}
use distributed_image_proces.Pipeline.Wal.{Recovery, Wal, frame, open_wal, append, checkpoint}
use distributed_image_proces.Pipeline.Wal.Frames.{IsCrc}
use distributed_image_proces.Pipeline.Wal.Crashes.{
  Implements, with_record, compacted, empty-Implements,
}
use distributed_image_proces.Pipeline.Wal.Runs.{Run, here, next, appends, saves, Run-open_wal}
use distributed_image_proces.Pipeline.Wal.Losses.{append_after_short_write}

abbrev crc : List ℕ → ℕ
crc b = length b % 2 ^ 32

crc-IsCrc : IsCrc crc
crc-IsCrc b = omega arith

abbrev start : Wal
start = record { seq = 0; disk = record { log = some []; snap = none } }

abbrev nothing : Recovery
nothing = record { snapshot = none; records = [] }

start-Implements : Implements crc start nothing
start-Implements = empty-Implements crc

abbrev first : Wal
first = (append crc 17 true (5 ∷ []) start).1

two_steps : Run crc start nothing (checkpoint crc (6 ∷ []) first) (compacted (6 ∷ []))
unfolding append frame
two_steps =
    next (next here (appends start nothing (5 ∷ []) (omega arith) (omega arith)))
      (saves first (with_record (5 ∷ []) nothing) (6 ∷ []) (omega arith) (omega arith))

Run-open_wal_example :
    (v : Wal) × (open_wal crc (checkpoint crc (6 ∷ []) first).disk ≡ some (v, compacted (6 ∷ [])))
    × Implements crc v (compacted (6 ∷ []))
Run-open_wal_example = Run-open_wal crc crc-IsCrc start-Implements two_steps

append_after_short_write_example :
    let w' = (append crc 4 false (1 ∷ 2 ∷ 3 ∷ 4 ∷ 5 ∷ 6 ∷ []) start).1 in
    let result = append crc 17 true (5 ∷ []) w' in
    (result.0 ≡ true) × (v : Wal) × (open_wal crc result.1.disk ≡ some (v, nothing))
append_after_short_write_example =
    append_after_short_write crc start nothing 4 (1 ∷ 2 ∷ 3 ∷ 4 ∷ 5 ∷ 6 ∷ []) (5 ∷ []) crc-IsCrc
      start-Implements (omega arith) (omega arith) (omega arith) (omega arith)
