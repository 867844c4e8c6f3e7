-- ===== src/Coordinator/Tests.antt =====
-- Small runs of the coordinator, and the theorems at them.
use distributed_image_proces.Prelude.{
  ℕ, ◌+◌, ◌%◌, ◌^◌, ◌≡◌, refl, Bool, true, false, Option, none, some, List, [], ◌∷◌, arith, ◌==◌,
  if◌then◌else◌, string_discrete, length, lookup, insert, pos,
}
use mathlib.Core.List.{Memᴰ}
use distributed_image_proces.Consensus.CommitFsm.{CommitCommand, committed, decode_command}
use distributed_image_proces.Coordinator.RaftCommit.{Moment, decided, decide}
use distributed_image_proces.Coordinator.RaftCommit.Agreement.{
  Agreed, decide-Agreed, Decides, decide_delivered,
}
use distributed_image_proces.Scheduler.Job.{JobStatus, TaskStatus, ResultRequest}
use distributed_image_proces.Scheduler.State.{Scheduler, StateRecord, snapshot, attach_store}
use distributed_image_proces.Scheduler.Invariant.{WellFormed}
use distributed_image_proces.Scheduler.Report.{Services, CommitDecision, flat, report_result}
use distributed_image_proces.Admission.{Controller, Ticket}
use distributed_image_proces.Coordinator.Effects.{
  CompletionSink, CompletionEvent, enable_side_effects,
}
use distributed_image_proces.Coordinator.Effects.Once.{
  AtMostOnce, none_yet, and_then, Reports-AtMostOnce,
}
use distributed_image_proces.Coordinator.Tickets.{
  Front, enable_admission, begin_request, finish_request, no_step, then_step, begins, finishes,
  ends, release_ticket,
}
use distributed_image_proces.Coordinator.Tickets.Slots.{Accounted, FrontSteps-Accounted}
use distributed_image_proces.Coordinator.Durable.{
  Node, enable_persistence, persist_to, persisted_frame,
}
use distributed_image_proces.Coordinator.Durable.Restarts.{
  Fits, Reached, created, persisted, recalled, Reached-enable_persistence,
}
use distributed_image_proces.Pipeline.Wal.Frames.{IsCrc}
use distributed_image_proces.Pipeline.Wal.{Wal}

abbrev command : CommitCommand
command = record {
  task_id = "t";
  job_id = "j";
  generation = pos 1;
  final_key = "results/j/ff.parquet";
}

abbrev quiet : Moment CommitCommand
quiet = record { entries = []; ended = false; leader = true }

abbrev delivery : Moment CommitCommand
delivery = record { entries = command ∷ []; ended = false; leader = false }

delivers : (decide some some command true true (quiet ∷ delivery ∷ []) []).outcome ≡ decided command
unfolding decide distributed_image_proces.Coordinator.RaftCommit.propose
    distributed_image_proces.Coordinator.RaftCommit.await_commit
    distributed_image_proces.Coordinator.RaftCommit.settled
    distributed_image_proces.Coordinator.RaftCommit.from_record committed lookup insert
    string_discrete
delivers = refl

decide-Agreed_example :
    Agreed command command (decide some some command true true (quiet ∷ delivery ∷ []) []).ledger
decide-Agreed_example =
    decide-Agreed some some command command true true (quiet ∷ delivery ∷ []) [] delivers

decide_delivered_example :
    Decides some some (decide some some command true true (quiet ∷ delivery ∷ []) [])
unfolding decode_command string_discrete
decide_delivered_example =
    decide_delivered some some command command (quiet ∷ []) [] delivery [] refl refl (refl, tt)
      (Memᴰ.head refl)

-- A scheduler with one job, before and after its shard "b" is queued.
abbrev idle : Scheduler
idle = record {
  jobs =
      (
        "j",
        record {
          id = "j";
          dataset = "train";
          algorithm = "resnet";
          config = [];
          priority = pos 2;
          status = JobStatus.running;
          shards = "b" ∷ [];
          total_tasks = 1;
          done_tasks = 0;
          failed_tasks = 0;
          created_at = 5;
          started_at = some 5;
          finished_at = none;
          error = none;
        },
      )
      ∷ [];
  tasks = [];
  pending_q = [];
  max_retries = 3;
  lease_chunk = 4;
  store = some [];
  on_job_done = some [];
}

abbrev queued : Scheduler
queued = record idle { pending_q = "b" ∷ [] }

idle-WellFormed : WellFormed idle
unfolding lookup
idle-WellFormed = record {
  chunk_pos = omega arith;
  distinct = tt;
  entries = tt;
  jobs_distinct = (refl, tt);
  jobs_keyed = (refl, tt);
}

queued-WellFormed : WellFormed queued
unfolding lookup
queued-WellFormed = record {
  chunk_pos = omega arith;
  distinct = tt;
  entries = tt;
  jobs_distinct = (refl, tt);
  jobs_keyed = (refl, tt);
}

-- A codec of these two states, and a checksum that is the length.
abbrev encode : StateRecord → List ℕ
encode st = elim st.pending [ [] ↦ 0 ∷ [] | _ ∷ _ ↦ 1 ∷ [] ]

abbrev decode : List ℕ → Option StateRecord
decode [] = none
decode (b ∷ bs) = some (if b == 0 then snapshot idle else snapshot queued)

abbrev crc : List ℕ → ℕ
crc b = length b % 2 ^ 32

crc-IsCrc : IsCrc crc
crc-IsCrc b = omega arith

abbrev w0 : Wal
w0 = record { seq = 0; disk = record { log = some []; snap = none } }

abbrev n0 : Node
n0 = record { sched = record idle { store = some [] }; wal = w0; checkpoint_interval = 30 }

opened : Reached crc encode decode w0 none
unfolding enable_persistence attach_store distributed_image_proces.Pipeline.Wal.open_wal
    distributed_image_proces.Pipeline.Wal.read_snapshot
    distributed_image_proces.Pipeline.Wal.open_after distributed_image_proces.Pipeline.Wal.scan_all
    distributed_image_proces.Pipeline.Wal.scan_log distributed_image_proces.Scheduler.State.restore
    distributed_image_proces.Scheduler.State.newest
opened = created (pos 0) idle n0 refl

queued-Fits : Fits crc encode decode queued w0
unfolding snapshot
queued-Fits = record {
  formed = queued-WellFormed;
  codec = refl;
  room = omega arith;
  size = omega arith;
}

abbrev w1 : Wal
w1 =
    persist_to crc encode decode (length (persisted_frame crc encode decode queued w0)) true queued
      w0

idle-Fits : Fits crc encode decode idle w1
unfolding snapshot persist_to distributed_image_proces.Pipeline.Wal.append
idle-Fits = record {
  formed = idle-WellFormed;
  codec = refl;
  room = omega arith;
  size = omega arith;
}

Reached-enable_persistence_example :
    (n : Node) × (enable_persistence crc encode decode (pos 10) w1.disk idle ≡ some n)
    × (n.sched ≡ attach_store [] (recalled (some queued) idle))
    × Reached crc encode decode n.wal (some queued)
Reached-enable_persistence_example =
    Reached-enable_persistence crc encode decode (pos 10) idle crc-IsCrc
      (persisted w0 none queued opened queued-Fits)

-- A request of tenant "a" whose job starts and ends.
abbrev controller : Controller
controller = record {
  max_in_flight = 4;
  classes = ("a", 1) ∷ [];
  total_weight = 1;
  inflight = [];
  total = 0;
  admitted = 0;
  rejected = 0;
}

abbrev begun : Front
begun = begin_request "r" "a" (enable_admission controller)

abbrev slot : Ticket
slot = record { tenant = "a"; once = false }

FrontSteps-Accounted_example : Accounted (release_ticket "j" (finish_request "r" "j" slot begun))
unfolding enable_admission begin_request distributed_image_proces.Coordinator.Tickets.tenant_of
    distributed_image_proces.Admission.admit distributed_image_proces.Admission.share
    distributed_image_proces.Admission.held distributed_image_proces.Admission.reserve lookup insert
    string_discrete
FrontSteps-Accounted_example = FrontSteps-Accounted controller refl refl (
    then_step
      (then_step (then_step no_step (begins "r" "a" refl)) (finishes "r" "j" slot refl refl))
      (ends "j"))

-- An emitter that counts its calls and fails.
abbrev emit : CompletionEvent → ℕ → Bool × ℕ
emit ev n = (false, n + 1)

abbrev sink : CompletionSink ℕ
sink = record { ledger = []; downstream = 0; calls = [] }

abbrev decision : CommitDecision
decision = record { task_id = "t"; job_id = "j"; generation = 1; final_key = flat "j" "b" }

abbrev services : Services ℕ
services = record { committer = none; decider = none; side_effect = none; key_hash = λ k. "h" }

abbrev report : ResultRequest
report = record { worker_id = "w1"; output_key = "staging/j/b.parquet"; error = "" }

-- The task "b" is running.
abbrev leased : Scheduler
leased = record idle {
  tasks =
      (
        "b",
        record {
          id = "b";
          job_id = "j";
          shard = "b";
          worker_id = "w1";
          status = TaskStatus.running;
          priority = pos 2;
          retries = 0;
          max_retries = 3;
          assigned_at = some 6;
          started_at = some 7;
          finished_at = none;
          error = "";
          range_start = 0;
          range_end = pos 10;
          frontier = 1;
          granted = 2;
          generation = 0;
          split = false;
        },
      )
      ∷ [];
}

-- What the sink has after a first report of the task.
abbrev reported_once : ℕ × CompletionSink ℕ
reported_once = (report_result (enable_side_effects emit services) "b" report 9 leased (0, sink)).2

emits_once : length reported_once.1.calls ≡ 1
unfolding report_result lookup string_discrete distributed_image_proces.Cache.Ids.contains
    enable_side_effects
emits_once = refl

Reports-AtMostOnce_example :
    AtMostOnce emit
      (report_result (enable_side_effects emit services) "b" report 10 leased reported_once).2.1
unfolding distributed_image_proces.Cache.Ids.contains
Reports-AtMostOnce_example =
    Reports-AtMostOnce emit services {e = (0, sink)}
      (and_then "b" report 10 leased (and_then "b" report 9 leased none_yet))
      (record { once = tt; claimed_calls = refl })
