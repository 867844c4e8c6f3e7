-- ===== src/Consensus/Tests.antt =====
-- A ledger over commands that are their own bytes, and the theorems at it.
use distributed_image_proces.Consensus.CommitFsm.Fencing.{AtLeast}
use distributed_image_proces.Consensus.CommitFsm.Replicas.{apply_all-highest}
use distributed_image_proces.Consensus.CommitFsm.{
  CommitCommand, committed, apply, Ledger, decode_command, apply_all,
}
use distributed_image_proces.Prelude.{
  ◌≡◌, refl, true, some, [], ◌∷◌, string_discrete, All, lookup, insert, pos,
}

abbrev first : CommitCommand
first = record {
  task_id = "t";
  job_id = "j";
  generation = pos 1;
  final_key = "results/j/ff.parquet";
}

abbrev newer : CommitCommand
newer = record first { generation = pos 2; final_key = "results/j/ff/0-5.parquet" }

abbrev ledger : Ledger
ledger = ("t", newer) ∷ []

-- A stale command is fenced off.
fenced : apply some first ledger ≡ (true, ledger)
unfolding apply lookup insert string_discrete
fenced = refl

apply_all-highest_example :
    All
      (λ b.
        (cmd : CommitCommand)
        → decode_command some b ≡ some cmd
        → AtLeast cmd (committed cmd.task_id (apply_all some (newer ∷ first ∷ []) ledger)))
      (newer ∷ first ∷ [])
apply_all-highest_example = apply_all-highest some (newer ∷ first ∷ []) ledger
