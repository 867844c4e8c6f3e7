-- ===== src/Worker/Sweep.antt =====
-- internal/worker/worker.go: runAlgorithm, renew, executeTask and RunTask. The coordinator and the
-- object store are parameters that act on a world `E`: `renew` is the post of a renewal (`none` its
-- error), `get` an object's size. Sums of sizes are left unbounded; of an error's message only the
-- beginning is kept; the trace is left out.
pub mod Leased
pub mod Partial
use distributed_image_proces.Prelude.{
  ◌>>=◌, ℕ, zero, suc, ◌+◌, ◌-◌, String, Bool, true, false, not, ◌&&◌, Option, none, some, List, [],
  ◌∷◌, ◌++◌, ltb, leb, if◌then◌else◌, length, get_elem?, ℤ, pos, pos_part, ltb_ℤ, is_neg,
}
use distributed_image_proces.Scheduler.Job.{
  TaskAssignment, RenewLeaseRequest, LeaseRenewal, ResultRequest,
}
use distributed_image_proces.Scheduler.Report.{ResultKey, final_result_key}

-- StagingResultKey: the job and the task of the format, with the text that it makes left out.
pub record StagingKey : Type 0 where
  pub job_id : String
  pub task_id : String

unfoldable pub staging_result_key : String → String → StagingKey
staging_result_key job_id task_id = record { job_id = job_id; task_id = task_id }

pub record ResultRow : Type 0 where
  pub task_id : String
  pub shard : String
  pub output_key : ResultKey
  pub images_processed : ℕ
  pub bytes_read : ℕ

-- What the worker uses of the world.
pub record World (E B : Type 0) : Type 0 where
  pub list_prefix : String → String → E → Option (List String) × E
  pub get : String → E → Option ℕ × E
  pub put : StagingKey → B → E → Bool × E
  pub renew : RenewLeaseRequest → E → Option LeaseRenewal × E
  pub write_parquet : ResultRow → Option B
  pub start : String → E → E
  pub result : String → ResultRequest → E → Bool × E
  pub key_text : StagingKey → String

-- The local variables of the loop: `i`, `bound`, `gen` and `totalBytes`, with the world, and the
-- offsets whose objects were asked for, each with the bound then in force, oldest first.
pub record Cursor (E : Type 0) : Type 0 where
  pub i : ℕ
  pub bound : ℕ
  pub gen : ℕ
  pub total_bytes : ℕ
  pub env : E
  pub touched : List (ℕ × ℕ)

-- Whether the loop goes on past the check of the bound.
pub data Look (E : Type 0) : Type 0 where
  go_on halt : Cursor E → Look E

-- What runAlgorithm returns: its three results, or an error.
pub data Ran : Type 0 where
  ran : ℕ → ℕ → StagingKey → Ran
  failed : String → Ran

-- `end`
unfoldable pub end_of : ℤ → ℕ → ℕ
end_of range_end total =
    if not (is_neg range_end) && ltb_ℤ range_end (pos total) then pos_part range_end else total

module _ {E B : Type 0} (v : World E B) (worker_id : String) where
  -- The renewal inside the loop.
  unfoldable pub renewed : LeaseRenewal → Cursor E → Look E
  renewed r c =
      let c' = record c { bound = r.bound; gen = r.generation } in
      if leb r.bound c.i then halt c' else go_on c'

  -- `if i >= bound`
  unfoldable pub check_bound : String → ℕ → Cursor E → Look E
  unfolding renewed
  check_bound task_id total c =
      if ltb c.i c.bound
      then go_on c
      else (let (answer, e) =
            v.renew
              (record {
                worker_id = worker_id;
                generation = pos c.gen;
                frontier = pos c.i;
                total = pos total;
              })
              c.env in
          elim answer [
            | none ↦ halt (record c { env = e })
            | some r ↦ renewed r (record c { env = e })
          ])

  -- The Get of one object; its offset is past whether it succeeds or not.
  unfoldable pub fetch : String → Cursor E → Cursor E
  fetch key c =
      let (size, e) = v.get key c.env in
      record c {
        i = c.i + 1;
        total_bytes = c.total_bytes + (elim size [ none ↦ 0 | some n ↦ n ]);
        env = e;
        touched = c.touched ++ (c.i, c.bound) ∷ [];
      }

  -- The loop; `none` is an index out of range.
  unfoldable pub sweep : ℕ → String → List String → ℕ → Cursor E → Option (Cursor E)
  unfolding check_bound fetch
  sweep zero task_id keys end c = some c
  sweep (suc fuel) task_id keys end c = elim (ltb c.i end) [
    | false ↦ some c
    | true ↦ elim (check_bound task_id (length keys) c) [
      | halt c' ↦ some c'
      | go_on c' ↦ elim (get_elem? keys c'.i) [
        | none ↦ none
        | some key ↦ sweep fuel task_id keys end (fetch key c')
      ]
    ]
  ]

  unfoldable pub first_cursor : TaskAssignment → E → Cursor E
  first_cursor a e = record {
    i = a.range_start;
    bound = a.bound;
    gen = a.generation;
    total_bytes = 0;
    env = e;
    touched = [];
  }

  -- The loop on the whole of an assignment: each turn moves on by one offset, so the fuel is enough.
  unfoldable pub sweep_task : TaskAssignment → List String → E → Option (Cursor E)
  unfolding sweep first_cursor end_of
  sweep_task a keys e =
      let end = end_of a.range_end (length keys) in
      sweep (end - a.range_start) a.task_id keys end (first_cursor a e)

  unfoldable pub row_of : TaskAssignment → Cursor E → ResultRow
  unfolding final_result_key
  row_of a c = record {
    task_id = a.task_id;
    shard = a.shard;
    output_key =
        final_result_key a.job_id a.shard
          (record { start = a.range_start; end = a.range_end; split = a.split });
    images_processed = c.i - a.range_start;
    bytes_read = c.total_bytes;
  }

  -- runAlgorithm after the loop.
  unfoldable pub stage : TaskAssignment → Cursor E → Ran × E
  unfolding row_of staging_result_key
  stage a c = elim (v.write_parquet (row_of a c)) [
    | none ↦ (failed "encode result parquet", c.env)
    | some body ↦
        let key = staging_result_key a.job_id a.task_id in
        let (done, e) = v.put key body c.env in
        if done
        then (ran (c.i - a.range_start) c.total_bytes key, e)
        else (failed "stage result", e)
  ]

  -- runAlgorithm; `none` is an index out of range.
  unfoldable pub run_algorithm : TaskAssignment → E → Option (Ran × E)
  unfolding sweep_task stage
  run_algorithm a e =
      let (listed, e') = v.list_prefix a.dataset a.shard e in
      elim listed [
        | none ↦ some (failed "list shard", e')
        | some keys ↦ do c ← sweep_task a keys e'; some (stage a c)
      ]

  unfoldable pub result_of : Ran → ResultRequest
  result_of (ran processed bytes key) = record {
    worker_id = worker_id;
    output_key = v.key_text key;
    error = "";
  }
  result_of (failed error) = record { worker_id = worker_id; output_key = ""; error = error }

  -- RunTask, and executeTask, which logs the answer of the last post.
  unfoldable pub run_task : TaskAssignment → E → Option (Bool × E)
  unfolding run_algorithm result_of
  run_task a e = do
    (outcome, e') ← run_algorithm a (v.start a.task_id e)
    some (v.result a.task_id (result_of outcome) e')
