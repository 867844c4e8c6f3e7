-- ===== src/Pipeline/Wal/Losses.antt =====
-- A write that fails half-way in a log that stays open.
use distributed_image_proces.Prelude.{
  take-append_le, length-take_eq, take-take, ℕ, ◌+◌, ◌%◌, ◌^◌, ◌≤◌, ◌<◌, ◌≡◌, sym, ap, ◌∙◌, true,
  false, some, List, ◌++◌, arith, length, take, length-append,
}
use mathlib.Core.List.{append_assoc}
use distributed_image_proces.Pipeline.Wal.{
  Recovery, Wal, bytes_of, frame, body, open_wal, append, extend,
}
use distributed_image_proces.Pipeline.Wal.Frames.{
  IsCrc, length-frame, read_frame_short, size_start, length-body,
}
use distributed_image_proces.Pipeline.Wal.Scanning.{torn, Ends, log_of}
use distributed_image_proces.Pipeline.Wal.Crashes.{Stores, Implements, Opens, open_wal-Opens}
use distributed_image_proces.Pipeline.Wal.Runs.{take_all, append-Stores}

module _ (crc : List ℕ → ℕ) where
  -- A torn frame with bytes behind it that do not fill it up.
  padded-Ends :
      (seq k : ℕ) (payload more : List ℕ)
      → 8 + length payload < 2 ^ 32
      → 4 ≤ k
      → k + length more < 16 + length payload
      → Ends crc (take k (frame crc seq payload) ++ more)
  padded-Ends seq k payload more l h g =
      let f = frame crc seq payload in
      let b = body crc seq payload in
      let n : length (take k f) ≡ k =
        length-take_eq k f (omega (arith, length-frame crc seq payload)) in
      torn (take k f ++ more) (
        read_frame_short crc b (take k f ++ more) (omega (arith, length-body crc seq payload))
          (take-append_le 4 (take k f) more (omega (arith, n))
            ∙ take-take 4 k f h
            ∙ size_start crc seq payload)
          (omega (arith, n, length-append (take k f) more, length-body crc seq payload)))

  append-succeeds :
      (w : Wal) (payload : List ℕ) → (append crc (16 + length payload) true payload w).0 ≡ true
  unfolding append
  append-succeeds w payload = ground (arith, length-frame crc ((w.seq + 1) % 2 ^ 64) payload)

  more-Stores :
      (w : Wal) (tail payload : List ℕ) (r : Recovery) (seq : ℕ)
      → Stores crc w.disk tail r seq
      → ((more : List ℕ) × (length more ≡ 16 + length payload)
          × Stores crc
              ((append crc (16 + length payload) true payload w).1).disk
              (tail ++ more)
              r
              seq)
  unfolding append extend
  more-Stores w tail payload r seq s =
      let f = frame crc ((w.seq + 1) % 2 ^ 64) payload in
      (
        f,
        length-frame crc ((w.seq + 1) % 2 ^ 64) payload,
        record {
          entries = s.entries;
          covered = s.covered;
          log =
              ap (λ l. bytes_of w.disk.log ++ l)
                (take_all (16 + length payload) f
                  (sym (length-frame crc ((w.seq + 1) % 2 ^ 64) payload)))
              ∙ ap (λ l. l ++ f) s.log
              ∙ append_assoc (log_of crc s.entries) tail f;
          framable = s.framable;
          upto = s.upto;
          snap = s.snap;
          behind = s.behind;
          newer_ones = s.newer_ones;
        },
      )

  -- An Append whose write fails after 4 bytes or more leaves the log such that the next Append, though
  -- it succeeds, is not recovered when it is shorter than what is missing of the first frame.
  pub append_after_short_write :
      (w : Wal) (r : Recovery) (k : ℕ) (payload later : List ℕ)
      → IsCrc crc
      → Implements crc w r
      → w.seq + 1 < 2 ^ 64
      → 8 + length payload < 2 ^ 32
      → 4 ≤ k
      → k + (16 + length later) < 16 + length payload
      → let w' = (append crc k false payload w).1 in
        let result = append crc (16 + length later) true later w' in
        (result.0 ≡ true) × (v : Wal) × (open_wal crc result.1.disk ≡ some (v, r))
  append_after_short_write w r k payload later c i room fits h g =
      let w' : Wal = (append crc k false payload w).1 in
      let first = append-Stores crc w r payload i room fits k false in
      let (more, size, stores) =
        more-Stores w' (take k (frame crc (w.seq + 1) payload)) later r w.seq first in
      let o : Opens crc ((append crc (16 + length later) true later w').1).disk r =
        open_wal-Opens crc _ _ r w.seq c stores
          (padded-Ends (w.seq + 1) k payload more fits h (omega (arith, size))) in
      (append-succeeds w' later, o.wal, o.opened)
