-- ===== src/Coordinator/Durable.antt =====
-- internal/coordinator/coordinator.go: EnablePersistence and checkpoint, over the scheduler's
-- persist.go and the write-ahead log. The JSON codec and the checksum are parameters.
pub mod Restarts
use distributed_image_proces.Prelude.{
  ◌>>=◌, ℕ, ◌+◌, Bool, Option, some, List, [], if◌then◌else◌, ℤ, pos, pos_part, ltb_ℤ,
}
use distributed_image_proces.Scheduler.State.{
  Scheduler, StateRecord, snapshot, restore, attach_store,
}
use distributed_image_proces.Pipeline.Wal.{Wal, Disk, open_wal, append, checkpoint, frame}

-- The coordinator's fields that EnablePersistence sets.
pub record Node : Type 0 where
  pub sched : Scheduler
  pub wal : Wal
  -- In seconds.
  pub checkpoint_interval : ℕ

module _ (crc : List ℕ → ℕ) (encode : StateRecord → List ℕ)
    (decode : List ℕ → Option StateRecord) where
  -- EnablePersistence
  unfoldable pub enable_persistence : ℤ → Disk → Scheduler → Option Node
  unfolding open_wal restore attach_store
  enable_persistence interval d sched = do
    (w, rec) ← open_wal crc d
    s ← restore decode rec.snapshot rec.records sched
    some (record {
      sched = attach_store [] s;
      wal = w;
      checkpoint_interval = if ltb_ℤ (pos 0) interval then pos_part interval else 30;
    })

  -- persistLocked with the log attached: `written` bytes of the frame reach the file.
  unfoldable pub persist_to : ℕ → Bool → Scheduler → Wal → Wal
  unfolding append snapshot
  persist_to written synced s w = (append crc written synced (encode (snapshot s)) w).1

  -- The bytes of the frame that persistLocked writes.
  unfoldable pub persisted_frame : Scheduler → Wal → List ℕ
  unfolding frame snapshot
  persisted_frame s w = frame crc (w.seq + 1) (encode (snapshot s))

  -- Coordinator.checkpoint: `s` is the scheduler at its call of Snapshot.
  unfoldable pub save : Scheduler → Wal → Wal
  unfolding checkpoint snapshot
  save s w = checkpoint crc (encode (snapshot s)) w
