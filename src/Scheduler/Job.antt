-- ===== src/Scheduler/Job.antt =====
-- internal/scheduler/job.go: the records that the scheduler keeps and exchanges, and Range of
-- commit.go. Points in time are numbers, and a nil pointer to one is `none`.
use distributed_image_proces.Prelude.{ℕ, String, Option, Bool, true, false, List, ℤ}

pub data JobStatus : Type 0 where
  pending running completed failed cancelled : JobStatus

pub data TaskStatus : Type 0 where
  pending assigned running done failed : TaskStatus

pub record Job : Type 0 where
  pub id : String
  pub dataset : String
  pub algorithm : String
  pub config : List (String × String)
  pub priority : ℤ
  pub status : JobStatus
  pub shards : List String
  pub total_tasks : ℕ
  pub done_tasks : ℕ
  pub failed_tasks : ℕ
  pub created_at : ℕ
  pub started_at : Option ℕ
  pub finished_at : Option ℕ
  -- The text "%d tasks failed" is kept as its number.
  pub error : Option ℕ

-- Offsets and the generation are never negative; `range_end` is -1 until the size is known.
pub record Task : Type 0 where
  pub id : String
  pub job_id : String
  pub shard : String
  pub worker_id : String
  pub status : TaskStatus
  pub priority : ℤ
  pub retries : ℕ
  pub max_retries : ℕ
  pub assigned_at : Option ℕ
  pub started_at : Option ℕ
  pub finished_at : Option ℕ
  pub error : String
  pub range_start : ℕ
  pub range_end : ℤ
  pub frontier : ℕ
  pub granted : ℕ
  pub generation : ℕ
  pub split : Bool

pub record TaskAssignment : Type 0 where
  pub task_id : String
  pub job_id : String
  pub shard : String
  pub dataset : String
  pub algorithm : String
  pub config : List (String × String)
  pub range_start : ℕ
  pub range_end : ℤ
  pub bound : ℕ
  pub generation : ℕ
  pub split : Bool

pub record RenewLeaseRequest : Type 0 where
  pub worker_id : String
  pub generation : ℤ
  pub frontier : ℤ
  pub total : ℤ

pub record LeaseRenewal : Type 0 where
  pub generation : ℕ
  pub bound : ℕ
  pub stolen : Bool

pub record SubmitJobRequest : Type 0 where
  pub dataset : String
  pub algorithm : String
  pub config : List (String × String)
  pub shards : List String
  pub priority : ℤ

-- The fields of a report that the scheduler reads.
pub record ResultRequest : Type 0 where
  pub worker_id : String
  pub output_key : String
  pub error : String

pub record Range : Type 0 where
  pub start : ℕ
  pub end : ℤ
  pub split : Bool

-- `t.Status == TaskPending`
abbrev pub is_pending : TaskStatus → Bool
is_pending TaskStatus.pending = true
is_pending _ = false

-- `t.Status == TaskAssigned || t.Status == TaskRunning`
abbrev pub in_flight : TaskStatus → Bool
in_flight TaskStatus.assigned = true
in_flight TaskStatus.running = true
in_flight _ = false

-- `t.Status == TaskDone`
abbrev pub is_done : TaskStatus → Bool
is_done TaskStatus.done = true
is_done _ = false

-- `t.Status == TaskFailed`
abbrev pub is_failed : TaskStatus → Bool
is_failed TaskStatus.failed = true
is_failed _ = false
