-- ===== src/Coordinator/Durable/Restarts.antt =====
-- Runs of a coordinator that persists, checkpoints, crashes and restarts.
use distributed_image_proces.Prelude.{
  some-inj, subst, ℕ, ◌+◌, ◌^◌, ◌<◌, ◌≡◌, refl, sym, ap, ◌∙◌, inl, inr, Bool, true, Option, none,
  some, List, [], arith, if◌then◌else◌, Option-cases, length, ℤ, pos, pos_part, ltb_ℤ,
}
use distributed_image_proces.Scheduler.Invariant.{WellFormed}
use distributed_image_proces.Scheduler.State.{
  Scheduler, StateRecord, snapshot, restore, attach_store, newest,
}
use distributed_image_proces.Scheduler.State.Recovery.{load-snapshot, newest-append}
use distributed_image_proces.Pipeline.Wal.{Wal, Disk, Recovery, open_wal, put_snapshot}
use distributed_image_proces.Pipeline.Wal.Frames.{IsCrc}
use distributed_image_proces.Pipeline.Wal.Crashes.{Implements, Opens, open_wal-Opens, fresh}
use distributed_image_proces.Pipeline.Wal.Scanning.{at_end, newer, log_of}
use distributed_image_proces.Pipeline.Wal.Runs.{
  Step, Step-Implements, appends, tears, saves, half_saves, restarts,
}
use distributed_image_proces.Coordinator.Durable.{
  Node, enable_persistence, persist_to, persisted_frame, save,
}

abbrev pub no_files : Disk
no_files = record { log = none; snap = none }

-- What a restart makes of a scheduler, when `saved` is the one last saved.
abbrev pub recalled : Option Scheduler → Scheduler → Scheduler
recalled none s0 = s0
recalled (some s) s0 = record s0 { jobs = s.jobs; tasks = s.tasks; pending_q = s.pending_q }

module _ (crc : List ℕ → ℕ) (encode : StateRecord → List ℕ)
    (decode : List ℕ → Option StateRecord) where
  -- A scheduler that the JSON codec reads back, in a record that the log's format holds.
  pub record Fits (s : Scheduler) (w : Wal) : Type 0 where
    pub formed : WellFormed s
    pub codec : decode (encode (snapshot s)) ≡ some (snapshot s)
    pub room : w.seq + 1 < 2 ^ 64
    pub size : 8 + length (encode (snapshot s)) < 2 ^ 32

  -- The logs that a coordinator can have, with the scheduler last saved. A restart is a crash
  -- followed by EnablePersistence on the files that are left.
  pub data Reached : Wal → Option Scheduler → Type 0 where
    created :
        (interval : ℤ) (s0 : Scheduler) (n : Node)
        → enable_persistence crc encode decode interval no_files s0 ≡ some n
        → Reached n.wal none
    persisted :
        (w : Wal) (saved : Option Scheduler) (s : Scheduler)
        → Reached w saved
        → Fits s w
        → Reached
            (persist_to crc encode decode (length (persisted_frame crc encode decode s w)) true s w)
            (some s)
    torn :
        (w : Wal) (saved : Option Scheduler) (s s0 : Scheduler) (written : ℕ) (synced : Bool)
        (interval : ℤ) (n : Node)
        → Reached w saved
        → Fits s w
        → written < length (persisted_frame crc encode decode s w)
        → enable_persistence crc encode decode interval
            (persist_to crc encode decode written synced s w).disk
            s0
          ≡ some n
        → Reached n.wal saved
    checkpointed :
        (w : Wal) (saved : Option Scheduler) (s : Scheduler)
        → Reached w saved
        → Fits s w
        → Reached (save crc encode decode s w) (some s)
    half_checkpointed :
        (w : Wal) (saved : Option Scheduler) (s s0 : Scheduler) (interval : ℤ) (n : Node)
        → Reached w saved
        → Fits s w
        → enable_persistence crc encode decode interval
            (put_snapshot crc (encode (snapshot s)) w).disk
            s0
          ≡ some n
        → Reached n.wal (some s)
    restarted :
        (w : Wal) (saved : Option Scheduler) (s0 : Scheduler) (interval : ℤ) (n : Node)
        → Reached w saved
        → enable_persistence crc encode decode interval w.disk s0 ≡ some n
        → Reached n.wal saved

  -- The newest record of a log is the scheduler saved.
  abbrev Latest : Option Scheduler → Recovery → Type 0
  Latest none r = newest r.snapshot r.records ≡ none
  Latest (some s) r =
      (newest r.snapshot r.records ≡ some (encode (snapshot s)))
      × WellFormed s
      × (decode (encode (snapshot s)) ≡ some (snapshot s))

  record Held (w : Wal) (saved : Option Scheduler) : Type 0 where
    pub view : Recovery
    pub implements : Implements crc w view
    pub latest : Latest saved view

  -- The node that EnablePersistence makes of a scheduler and a log.
  node_of : ℤ → Scheduler → Wal → Node
  node_of interval s w = record {
    sched = attach_store [] s;
    wal = w;
    checkpoint_interval = if ltb_ℤ (pos 0) interval then pos_part interval else 30;
  }

  enable_persistence-node_of :
      (interval : ℤ) (d : Disk) (s0 s : Scheduler) (w : Wal) (r : Recovery)
      → open_wal crc d ≡ some (w, r)
      → restore decode r.snapshot r.records s0 ≡ some s
      → enable_persistence crc encode decode interval d s0 ≡ some (node_of interval s w)
  unfolding enable_persistence node_of
  enable_persistence-node_of interval d s0 s w r h g = rw (enable_persistence, h, g)

  enable_persistence-closed :
      (interval : ℤ) (d : Disk) (s0 : Scheduler)
      → open_wal crc d ≡ none
      → enable_persistence crc encode decode interval d s0 ≡ none
  unfolding enable_persistence
  enable_persistence-closed interval d s0 h = rw (enable_persistence, h)

  enable_persistence-undecoded :
      (interval : ℤ) (d : Disk) (s0 : Scheduler) (w : Wal) (r : Recovery)
      → open_wal crc d ≡ some (w, r)
      → restore decode r.snapshot r.records s0 ≡ none
      → enable_persistence crc encode decode interval d s0 ≡ none
  unfolding enable_persistence
  enable_persistence-undecoded interval d s0 w r h g = rw (enable_persistence, h, g)

  -- What EnablePersistence opened.
  opened_by :
      (interval : ℤ) (d : Disk) (s0 : Scheduler) (n : Node)
      → enable_persistence crc encode decode interval d s0 ≡ some n
      → (r : Recovery) × (open_wal crc d ≡ some (n.wal, r))
  unfolding node_of
  opened_by interval d s0 n e = elim (Option-cases (open_wal crc d)) [
    | inl h ↦ absurd (ground (arith, e, enable_persistence-closed interval d s0 h))
    | inr ((w, r), h) ↦ elim (Option-cases (restore decode r.snapshot r.records s0)) [
      | inl g ↦ absurd (ground (arith, e, enable_persistence-undecoded interval d s0 w r h g))
      | inr (s, g) ↦
          let same : node_of interval s w ≡ n =
            some-inj (sym (enable_persistence-node_of interval d s0 s w r h g) ∙ e) in
          (r, h ∙ ap (λ v. some (v, r)) (ap (λ x. x.wal) same))
    ]
  ]

  restored :
      (saved : Option Scheduler) (s0 : Scheduler) (r : Recovery)
      → Latest saved r
      → restore decode r.snapshot r.records s0 ≡ some (recalled saved s0)
  unfolding restore
  restored none s0 r h = rw (restore, h)
  restored (some s) s0 r h = rw (restore, h.0, h.2, load-snapshot s s0 h.1)

  -- One step of the log keeps what is held, with the view that the step leaves.
  stepped :
      {w w' : Wal} {r r' : Recovery} (saved : Option Scheduler)
      → IsCrc crc
      → Implements crc w r
      → Step crc w r w' r'
      → Latest saved r'
      → Held w' saved
  stepped {r' = r'} saved c i step l = record {
    view = r';
    implements = Step-Implements crc c step i;
    latest = l;
  }

  empty_files-Opens : IsCrc crc → Opens crc no_files (record { snapshot = none; records = [] })
  unfolding newer log_of
  empty_files-Opens c =
      open_wal-Opens crc no_files [] (record { snapshot = none; records = [] }) 0 c
        (record {
          entries = [];
          covered = 0;
          log = refl;
          framable = tt;
          upto = tt;
          snap = fresh;
          behind = omega arith;
          newer_ones = refl;
        })
        at_end

  Reached-Held : {w : Wal} {saved : Option Scheduler} → IsCrc crc → Reached w saved → Held w saved
  unfolding newest persist_to persisted_frame save
  Reached-Held c (created interval s0 n e) =
      let opened = opened_by interval no_files s0 n e in
      let o = empty_files-Opens c in
      let same : o.wal ≡ n.wal = ap (λ x. x.0) (some-inj (sym o.opened ∙ opened.1)) in
      record {
        view = record { snapshot = none; records = [] };
        implements =
            subst (λ v. Implements crc v (record { snapshot = none; records = [] })) same
              o.implements;
        latest = refl;
      }
  Reached-Held c (persisted w saved s before f) =
      let h = Reached-Held c before in
      stepped (some s) c h.implements (appends w h.view (encode (snapshot s)) f.room f.size)
        (newest-append h.view.snapshot h.view.records (encode (snapshot s)), f.formed, f.codec)
  Reached-Held c (torn w saved s s0 written synced interval n before f short e) =
      let h = Reached-Held c before in
      let o = opened_by interval _ s0 n e in
      stepped saved c h.implements
        (tears w h.view (encode (snapshot s)) written synced n.wal o.0 f.room f.size short o.1)
        h.latest
  Reached-Held c (checkpointed w saved s before f) =
      let h = Reached-Held c before in
      stepped (some s) c h.implements
        (saves w h.view (encode (snapshot s)) (omega (arith, f.room)) f.size)
        (refl, f.formed, f.codec)
  Reached-Held c (half_checkpointed w saved s s0 interval n before f e) =
      let h = Reached-Held c before in
      let o = opened_by interval _ s0 n e in
      stepped (some s) c h.implements
        (half_saves w h.view (encode (snapshot s)) n.wal o.0 (omega (arith, f.room)) f.size o.1)
        (refl, f.formed, f.codec)
  Reached-Held c (restarted w saved s0 interval n before e) =
      let h = Reached-Held c before in
      let o = opened_by interval w.disk s0 n e in
      stepped saved c h.implements (restarts w h.view n.wal o.0 o.1) h.latest

  -- With a checksum of 32 bits, and where each saved scheduler satisfies the invariant and is read back by
  -- the JSON codec, sequence numbers stay below 2 ^ 64 and records below 2 ^ 32 bytes: after any sequence
  -- of persists, checkpoints, restarts, and crashes between or in the midst of them, EnablePersistence
  -- succeeds, and the scheduler has the jobs, tasks and queue of the scheduler last saved.
  pub Reached-enable_persistence :
      {w : Wal} {saved : Option Scheduler} (interval : ℤ) (s0 : Scheduler)
      → IsCrc crc
      → Reached w saved
      → (n : Node) × (enable_persistence crc encode decode interval w.disk s0 ≡ some n)
        × (n.sched ≡ attach_store [] (recalled saved s0))
        × Reached n.wal saved
  unfolding node_of
  Reached-enable_persistence {w} {saved} interval s0 c run =
      let h = Reached-Held c run in
      let o = open_wal-Opens crc w.disk [] h.view w.seq c h.implements at_end in
      let n = node_of interval (recalled saved s0) o.wal in
      let e : enable_persistence crc encode decode interval w.disk s0 ≡ some n =
        enable_persistence-node_of interval w.disk s0 (recalled saved s0) o.wal h.view o.opened
          (restored saved s0 h.view h.latest) in
      (n, e, refl, restarted w saved s0 interval n run e)
