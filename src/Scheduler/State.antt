-- ===== src/Scheduler/State.antt =====
-- internal/scheduler/scheduler.go, the Scheduler struct with New and the setters, and persist.go.
-- A map is an association list, the mutex is left out (each method is one step), and the store
-- holds the records handed to its Append; that Append fails is only logged by the source.
pub mod Keys
pub mod Recovery
use distributed_image_proces.Prelude.{
  ℕ, ◌≡◌, String, Bool, true, false, Option, none, some, List, [], ◌∷◌, ◌++◌, map, insert, leb, ltb,
  ℤ, pos, negsuc, if◌then◌else◌, pos_part, ltb_ℤ,
}
use distributed_image_proces.Scheduler.Job.{Job, Task}

-- schedulerState
pub record StateRecord : Type 0 where
  pub jobs : List Job
  pub tasks : List Task
  pub pending : List String

pub record Scheduler : Type 0 where
  pub jobs : List (String × Job)
  pub tasks : List (String × Task)
  pub pending_q : List String
  pub max_retries : ℕ
  pub lease_chunk : ℕ
  -- The attached RecordStore: what was appended to it, oldest first.
  pub store : Option (List StateRecord)
  -- The job-done hook: the job ids that it was called with, oldest first.
  pub on_job_done : Option (List String)

abbrev pub default_lease_chunk : ℕ
default_lease_chunk = 1000

-- New
unfoldable pub new : ℕ → Scheduler
new max_retries = record {
  jobs = [];
  tasks = [];
  pending_q = [];
  max_retries = max_retries;
  lease_chunk = default_lease_chunk;
  store = none;
  on_job_done = none;
}

-- SetJobDoneHook
unfoldable pub set_job_done_hook : Scheduler → Scheduler
set_job_done_hook s = record s { on_job_done = some [] }

-- SetLeaseChunk
unfoldable pub set_lease_chunk : ℤ → Scheduler → Scheduler
set_lease_chunk n s = if ltb_ℤ (pos 0) n then record s { lease_chunk = pos_part n } else s

-- AttachStore
unfoldable pub attach_store : List StateRecord → Scheduler → Scheduler
attach_store log s = record s { store = some log }

abbrev pub values : {V : Type 0} → List (String × V) → List V
values m = map (λ e. e.1) m

-- Snapshot and encodeStateLocked, before the JSON text
unfoldable pub snapshot : Scheduler → StateRecord
snapshot s = record { jobs = values s.jobs; tasks = values s.tasks; pending = s.pending_q }

-- persistLocked
unfoldable pub persist : Scheduler → Scheduler
persist s = elim s.store [
  | none ↦ s
  | some log ↦ record s { store = some (log ++ snapshot s ∷ []) }
]

-- The two loops of Restore that index the records by their ids.
unfoldable pub index_by :
    {V : Type 0} → (V → String) → List V → List (String × V) → List (String × V)
index_by id [] m = m
index_by id (v ∷ vs) m = index_by id vs (insert (id v) v m)

unfoldable pub load : StateRecord → Scheduler → Scheduler
unfolding index_by
load st s = record s {
  jobs = index_by (λ j. j.id) st.jobs [];
  tasks = index_by (λ t. t.id) st.tasks [];
  pending_q = st.pending;
}

-- `blob` of Restore: the last record, or the snapshot if there is none.
unfoldable pub newest : {B : Type 0} → Option B → List B → Option B
newest snap [] = snap
newest snap (r ∷ rs) = newest (some r) rs

-- Restore; `decode` is json.Unmarshal, and `none` its error.
unfoldable pub restore :
    {B : Type 0} → (B → Option StateRecord) → Option B → List B → Scheduler → Option Scheduler
unfolding newest load
restore decode snap records s = elim (newest snap records) [
  | none ↦ some s
  | some blob ↦ elim (decode blob) [ none ↦ none | some st ↦ some (load st s) ]
]
