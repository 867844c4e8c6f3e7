-- ===== src/Consensus/CommitFsm/Fencing.antt =====
-- The fence of the ledger: generations.
use distributed_image_proces.Consensus.CommitFsm.{
  CommitCommand, record_command, apply, committed, Ledger, decode_command,
}
use distributed_image_proces.Prelude.{
  String, ◌≡◌, refl, inl, inr, ite, if_pos, if_neg, false, Option, none, some, arith, if◌then◌else◌,
  Option-cases, string_discrete, lookup-insert, ltb_ℤ,
}

-- The record that wins between the one held and a command.
unfoldable pub winner : Option CommitCommand → CommitCommand → CommitCommand
winner none cmd = cmd
winner (some cur) cmd = if ltb_ℤ cur.generation cmd.generation then cmd else cur

pub committed-record_command :
    (k : String) (cmd : CommitCommand) (f : Ledger)
    → committed k (record_command cmd f)
      ≡ ite
          (string_discrete k cmd.task_id)
          (some (winner (committed cmd.task_id f) cmd))
          (committed k f)
unfolding committed record_command winner
committed-record_command k cmd f = ground (arith, lookup-insert k cmd.task_id cmd f)

-- Apply of a command that decodes records, under the command's task, the winner of the command and
-- the record held, and leaves the records of the other tasks; of bytes that do not decode, or that
-- name no task, it changes nothing and reports an error.
pub apply-committed :
    {B : Type 0} (decode : B → Option CommitCommand) (b : B) (f : Ledger) (k : String)
    → committed k (apply decode b f).1 ≡ (elim (decode_command decode b) [
      | none ↦ committed k f
      | some cmd ↦
          ite
            (string_discrete k cmd.task_id)
            (some (winner (committed cmd.task_id f) cmd))
            (committed k f)
    ])
unfolding apply
apply-committed decode b f k = elim (Option-cases (decode_command decode b)) [
  | inl e ↦ rw (e, apply)
  | inr (cmd, e) ↦ rw (e, apply) (committed-record_command k cmd f)
]

-- A record of a generation no lower than a command's.
abbrev pub AtLeast : CommitCommand → Option CommitCommand → Type 0
AtLeast cmd none = ⊥
AtLeast cmd (some c) = ltb_ℤ c.generation cmd.generation ≡ false

winner-AtLeast :
    (x cmd : CommitCommand) (o : Option CommitCommand)
    → AtLeast cmd (some (winner o cmd)) × (AtLeast x o → AtLeast x (some (winner o cmd)))
unfolding winner
winner-AtLeast x cmd none = (ground arith, λ h. absurd h)
winner-AtLeast x cmd (some cur) = (ground arith, ground arith)

record_command-AtLeast :
    (x cmd : CommitCommand) (k : String) (f : Ledger)
    → AtLeast x (committed k f)
    → AtLeast x (committed k (record_command cmd f))
record_command-AtLeast x cmd k f h = elim (string_discrete k cmd.task_id) [
  | yes p ↦
      rw (committed-record_command k cmd f, if_pos (string_discrete k cmd.task_id) p)
        ((winner-AtLeast x cmd (committed cmd.task_id f)).1 (rw p at h))
  | no n ↦ rw (committed-record_command k cmd f, if_neg (string_discrete k cmd.task_id) n) h
]

pub apply-AtLeast :
    {B : Type 0} (decode : B → Option CommitCommand) (b : B) (x : CommitCommand) (k : String)
    (f : Ledger)
    → AtLeast x (committed k f)
    → AtLeast x (committed k (apply decode b f).1)
unfolding apply
apply-AtLeast decode b x k f h = elim (Option-cases (decode_command decode b)) [
  | inl e ↦ rw (e, apply) h
  | inr (cmd, e) ↦ rw (e, apply) (record_command-AtLeast x cmd k f h)
]

pub apply-AtLeast_self :
    {B : Type 0} (decode : B → Option CommitCommand) (b : B) (cmd : CommitCommand) (f : Ledger)
    → decode_command decode b ≡ some cmd
    → AtLeast cmd (committed cmd.task_id (apply decode b f).1)
unfolding apply
apply-AtLeast_self decode b cmd f e =
    rw (e, apply)
      (rw (committed-record_command cmd.task_id cmd f) (
        rw (if_pos (string_discrete cmd.task_id cmd.task_id) refl)
          (winner-AtLeast cmd cmd (committed cmd.task_id f)).0))
