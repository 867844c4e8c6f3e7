-- ===== src/Coordinator/RaftCommit.antt =====
-- internal/coordinator/raft.go: raftCommitDecider. The Raft node is the environment: a list of the
-- moments at which Decide's loop looks. CommitDecision and CommitCommand have the same fields, so a
-- CommitCommand stands for both and fromRecord is the copy of its fields. A message of an error is
-- left out.
pub mod Agreement
use distributed_image_proces.Prelude.{
  Bool, true, false, not, Option, none, some, List, [], ◌∷◌, ◌++◌, if◌then◌else◌, ℤ, ltb_ℤ,
}
use distributed_image_proces.Consensus.CommitFsm.{CommitCommand, Ledger, committed, apply_all}

-- What happens between two looks at the ledger: the log entries that the node applies, and then
-- whether the context ends (or the ticker fires) and whether the node leads.
pub record Moment (B : Type 0) : Type 0 where
  pub entries : List B
  pub ended : Bool
  pub leader : Bool

-- How far Decide has come. `waiting` is a wait that goes on past the moments given.
pub data Outcome : Type 0 where
  decided : CommitCommand → Outcome
  refused : Outcome
  waiting : Outcome

-- With the ledger that the node then has, and the bytes proposed, in order.
pub record Decision (B : Type 0) : Type 0 where
  pub outcome : Outcome
  pub ledger : Ledger
  pub proposed : List B

-- `a >= b`
abbrev pub geb_ℤ : ℤ → ℤ → Bool
geb_ℤ a b = not (ltb_ℤ a b)

unfoldable pub from_record : CommitCommand → CommitCommand
from_record r = record {
  task_id = r.task_id;
  job_id = r.job_id;
  generation = r.generation;
  final_key = r.final_key;
}

-- The test at both looks: the record of the task, of this generation or a newer one.
unfoldable pub settled : CommitCommand → Ledger → Option CommitCommand
unfolding committed from_record
settled dec f = elim (committed dec.task_id f) [
  | none ↦ none
  | some r ↦ if geb_ℤ r.generation dec.generation then some (from_record r) else none
]

module _ {B : Type 0} (encode : CommitCommand → Option B) (decode : B → Option CommitCommand) where
  -- The loop.
  unfoldable pub await_commit : CommitCommand → B → List (Moment B) → Ledger → List B → Decision B
  unfolding settled apply_all
  await_commit dec bytes [] f proposed = record {
    outcome = waiting;
    ledger = f;
    proposed = proposed;
  }
  await_commit dec bytes (m ∷ ms) f proposed =
      let f' = apply_all decode m.entries f in
      elim (settled dec f') [
        | some r ↦ record { outcome = decided r; ledger = f'; proposed = proposed }
        | none ↦ elim m.ended [
          | true ↦ record { outcome = refused; ledger = f'; proposed = proposed }
          | false ↦
              await_commit dec bytes ms f' (if m.leader then proposed ++ bytes ∷ [] else proposed)
        ]
      ]

  -- The part before the loop. `leader` is IsLeader, and `accepts` whether the first Propose succeeds.
  unfoldable pub propose : CommitCommand → Bool → List (Moment B) → Ledger → Decision B
  unfolding await_commit
  propose dec accepts ms f = elim (encode dec) [
    | none ↦ record { outcome = refused; ledger = f; proposed = [] }
    | some bytes ↦
        if accepts
        then await_commit dec bytes ms f (bytes ∷ [])
        else record { outcome = refused; ledger = f; proposed = [] }
  ]

  -- Decide
  unfoldable pub decide : CommitCommand → Bool → Bool → List (Moment B) → Ledger → Decision B
  unfolding settled propose
  decide dec leader accepts ms f = elim (settled dec f) [
    | some r ↦ record { outcome = decided r; ledger = f; proposed = [] }
    | none ↦
        if leader
        then propose dec accepts ms f
        else record { outcome = refused; ledger = f; proposed = [] }
  ]
