-- ===== src/Worker/Sweep/Partial.antt =====
-- What a worker does when a renewal fails.
use distributed_image_proces.Prelude.{
  ℕ, zero, suc, ◌+◌, ◌-◌, ◌≤◌, ◌<◌, String, ◌≡◌, refl, inl, inr, true, false, Option, none, some,
  List, arith, ltb, Bool-cases, length, subst, pos,
}
use distributed_image_proces.Scheduler.Job.{TaskAssignment, RenewLeaseRequest, ResultRequest}
use distributed_image_proces.Worker.Sweep.{
  World, Cursor, StagingKey, ResultRow, end_of, check_bound, fetch, sweep, sweep_task, first_cursor,
  halt, go_on, stage, staging_result_key, run_algorithm, run_task, result_of, row_of, ran,
}
use distributed_image_proces.Worker.Sweep.Leased.{get_elem?-in, end_of-le}

module _ {E B : Type 0} (v : World E B) (worker_id : String) where
  -- Every renewal fails.
  abbrev pub Lost : Type 0
  Lost = (req : RenewLeaseRequest) (e : E) → (v.renew req e).0 ≡ none

  -- The results are encoded and stored.
  pub record Stores : Type 0 where
    pub encodes : (row : ResultRow) → (b : B) × (v.write_parquet row ≡ some b)
    pub puts : (key : StagingKey) (b : B) (e : E) → (v.put key b e).0 ≡ true

  -- The loop came to the offset `bound` and no further.
  pub record Halted (bound : ℕ) (result : Option (Cursor E)) : Type 0 where
    pub last : Cursor E
    pub returns : result ≡ some last
    pub at : last.i ≡ bound

  check_bound-halt :
      (task_id : String) (total : ℕ) (c : Cursor E)
      → Lost
      → ltb c.i c.bound ≡ false
      → (c' : Cursor E) × (check_bound v worker_id task_id total c ≡ halt c') × (c'.i ≡ c.i)
  unfolding check_bound
  check_bound-halt task_id total c lost h =
      let req : RenewLeaseRequest = record {
        worker_id = worker_id;
        generation = pos c.gen;
        frontier = pos c.i;
        total = pos total;
      } in
      (record c { env = (v.renew req c.env).1 }, rw (check_bound, h, lost req c.env), refl)

  check_bound-go_on :
      (task_id : String) (total : ℕ) (c : Cursor E)
      → ltb c.i c.bound ≡ true
      → check_bound v worker_id task_id total c ≡ go_on c
  unfolding check_bound
  check_bound-go_on task_id total c h = rw (check_bound, h)

  fetched :
      (key : String) (c : Cursor E)
      → ((fetch v worker_id key c).i ≡ c.i + 1) × ((fetch v worker_id key c).bound ≡ c.bound)
  unfolding fetch
  fetched key c = (refl, refl)

  sweep-Halted :
      (fuel : ℕ) (task_id : String) (keys : List String) (end : ℕ) (c : Cursor E)
      → Lost
      → c.i ≤ c.bound
      → c.bound < end
      → end ≤ length keys
      → end - c.i ≤ fuel
      → Halted c.bound (sweep v worker_id fuel task_id keys end c)
  unfolding sweep
  sweep-Halted zero task_id keys end c lost h g fits enough = absurd (omega arith)
  sweep-Halted (suc fuel) task_id keys end c lost h g fits enough =
      let more : ltb c.i end ≡ true = ground arith in
      elim (Bool-cases (ltb c.i c.bound)) [
        | inl below ↦
            let found = get_elem?-in keys c.i (omega arith) in
            let c' = fetch v worker_id found.0 c in
            let next = fetched found.0 c in
            rw (sweep, more, check_bound-go_on task_id (length keys) c below, found.1)
              (subst (λ b. Halted b (sweep v worker_id fuel task_id keys end c')) (next.1)
                (sweep-Halted fuel task_id keys end c' lost (ground (arith, next.0, next.1))
                  (omega (arith, next.1)) fits (omega (arith, next.0))))
        | inr reached ↦
            let stop = check_bound-halt task_id (length keys) c lost reached in
            rw (sweep, more, stop.1)
              (record { last = stop.0; returns = refl; at = ground (arith, stop.2) })
      ]

  -- The report of a finished task.
  abbrev pub success : TaskAssignment → ResultRequest
  success a = record {
    worker_id = worker_id;
    output_key = v.key_text (staging_result_key a.job_id a.task_id);
    error = "";
  }

  stage-ran :
      (a : TaskAssignment) (c : Cursor E)
      → Stores
      → (e : E) × (n : ℕ) × (stage v worker_id a c
          ≡ (ran n c.total_bytes (staging_result_key a.job_id a.task_id), e))
  unfolding stage
  stage-ran a c s =
      let row = s.encodes (row_of v worker_id a c) in
      let key = staging_result_key a.job_id a.task_id in
      ((v.put key row.0 c.env).1, c.i - a.range_start, rw (stage, row.1, s.puts key row.0 c.env))

  run_algorithm-staged :
      (a : TaskAssignment) (keys : List String) (e : E) (c : Cursor E)
      → (v.list_prefix a.dataset a.shard e).0 ≡ some keys
      → sweep_task v worker_id a keys (v.list_prefix a.dataset a.shard e).1 ≡ some c
      → run_algorithm v worker_id a e ≡ some (stage v worker_id a c)
  unfolding run_algorithm
  run_algorithm-staged a keys e c listed swept = rw (run_algorithm, listed, swept)

  -- No renewal succeeds, the objects are listed, the range goes on past the first bound, and the
  -- store takes the result: the loop asks for no object from the bound on, and yet the worker reports the task
  -- as done, with no error and with the staged result of the part.
  pub run_task_cut_off :
      (a : TaskAssignment) (keys : List String) (e : E)
      → Lost
      → Stores
      → (v.list_prefix a.dataset a.shard (v.start a.task_id e)).0 ≡ some keys
      → a.range_start ≤ a.bound
      → a.bound < end_of a.range_end (length keys)
      → Halted a.bound
          (sweep_task v worker_id a keys (v.list_prefix a.dataset a.shard (v.start a.task_id e)).1)
        × ((e' : E) × (run_task v worker_id a e ≡ some (v.result a.task_id (success a) e')))
  unfolding run_task result_of sweep_task first_cursor
  run_task_cut_off a keys e lost stores listed h g =
      let e' = (v.list_prefix a.dataset a.shard (v.start a.task_id e)).1 in
      let end = end_of a.range_end (length keys) in
      let halted : Halted a.bound (sweep_task v worker_id a keys e') =
        sweep-Halted (end - a.range_start) a.task_id keys end (first_cursor v worker_id a e') lost h
          g (end_of-le a.range_end (length keys)) (omega arith) in
      let staged = stage-ran a halted.last stores in
      (
        halted,
        (
          staged.0,
          rw (
            run_task,
            run_algorithm-staged a keys (v.start a.task_id e) halted.last listed halted.returns,
            staged.2,
          ),
        ),
      )
