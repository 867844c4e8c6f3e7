-- ===== src/Scheduler/Dispatch/Submission.antt =====
-- The tasks that Submit adds, and the items that they own.
use distributed_image_proces.Scheduler.Dispatch.{Task, Scheduler}
use distributed_image_proces.Prelude.{
  ℕ, ◌+◌, ◌≤◌, String, ◌≡◌, ite, none, List, [], ◌∷◌, string_discrete, lookup,
}

-- How often a shard stands in a list.
abbrev pub occurrences : String → List String → ℕ
occurrences shard [] = 0
occurrences shard (x ∷ xs) = ite (string_discrete x shard) 1 0 + occurrences shard xs

-- The ids from number `i` on are new to the map and differ from one another.
pub record FreshIds (ids : ℕ → String) (i : ℕ) (tasks : List (String × Task)) : Type 0 where
  pub unused : (n : ℕ) → i ≤ n → lookup (ids n) tasks ≡ none
  pub injective : (m n : ℕ) → ids m ≡ ids n → m ≡ n
