-- ===== src/Consensus.antt =====
-- internal/consensus: the replicated ledger of commit decisions.
pub mod CommitFsm
mod Tests
