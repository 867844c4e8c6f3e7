-- ===== src/Consensus/CommitFsm.antt =====
-- internal/consensus/commit_fsm.go: CommitCommand and CommitFSM. The protobuf codec is a parameter:
-- `decode` is proto.Unmarshal, `none` its error. The Raft library hands every replica one log.
pub mod Fencing
pub mod Replicas
use distributed_image_proces.Prelude.{
  ℕ, zero, suc, ◌+◌, ◌-◌, ◌*◌, ◌/◌, ◌%◌, ◌^◌, ◌≤◌, ◌<◌, String, ◌≡◌, refl, sym, ap, ◌∙◌, ◌≢◌, ◌↔◌,
  ◌⊎◌, inl, inr, ite, if_pos, if_neg, Bool, true, false, not, ◌&&◌, ◌||◌, Option, none, some, List,
  [], ◌∷◌, ◌++◌, map, arith, ltb, leb, ◌==◌, if◌then◌else◌, Bool-cases, Option-cases,
  string_discrete, length, get_elem?, take, drop, remove_at, All, length-append, count_if,
  count_if-append, lookup, insert, delete, lookup_or, lookup-insert, lookup-delete, length-insert,
  sum_map, at_key, sum_map-insert, at_key-le-sum_map, Distinct, insert-Distinct, delete-Distinct,
  lookup_tail, AllEntries, insert-AllEntries, AllEntries-lookup, AllEntries-mono, ℤ, pos, negsuc,
  pos_part, ltb_ℤ, is_neg, int64_max, add_int64, ◌>>=◌, IfSome, IfSome-bind, IfSome-some, IfSome-of,
  IfSome-mono,
}

pub record CommitCommand : Type 0 where
  pub task_id : String
  pub job_id : String
  pub generation : ℤ
  pub final_key : String

-- The map `committed`.
abbrev pub Ledger : Type 0
Ledger = List (String × CommitCommand)

-- DecodeCommitCommand
unfoldable pub decode_command : {B : Type 0} → (B → Option CommitCommand) → B → Option CommitCommand
decode_command decode b = do c ← decode b; ite (string_discrete c.task_id "") none (some c)

-- The fenced write of Apply.
unfoldable pub record_command : CommitCommand → Ledger → Ledger
record_command cmd f = elim (lookup cmd.task_id f) [
  | none ↦ insert cmd.task_id cmd f
  | some cur ↦ if ltb_ℤ cur.generation cmd.generation then insert cmd.task_id cmd f else f
]

-- Apply; `false` stands for its error.
unfoldable pub apply : {B : Type 0} → (B → Option CommitCommand) → B → Ledger → Bool × Ledger
unfolding decode_command record_command
apply decode b f = elim (decode_command decode b) [
  | none ↦ (false, f)
  | some cmd ↦ (true, record_command cmd f)
]

-- Committed
unfoldable pub committed : String → Ledger → Option CommitCommand
committed task_id f = lookup task_id f

-- Len
unfoldable pub len : Ledger → ℕ
len f = length f

-- The loop of Node.run over the committed entries.
unfoldable pub apply_all : {B : Type 0} → (B → Option CommitCommand) → List B → Ledger → Ledger
unfolding apply
apply_all decode [] f = f
apply_all decode (b ∷ bs) f = apply_all decode bs (apply decode b f).1
