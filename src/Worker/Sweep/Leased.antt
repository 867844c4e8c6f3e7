-- ===== src/Worker/Sweep/Leased.antt =====
-- The loop of runAlgorithm and its lease.
use distributed_image_proces.Prelude.{
  subst, ℕ, zero, suc, ◌+◌, ◌-◌, ◌≤◌, ◌<◌, String, ◌≡◌, refl, sym, ◌⊎◌, inl, inr, Option, none,
  some, List, [], ◌∷◌, ◌++◌, arith, ltb, leb, Bool-cases, Option-cases, length, get_elem?, All, ℤ,
  pos, negsuc,
}
use distributed_image_proces.Scheduler.Job.{TaskAssignment, RenewLeaseRequest, LeaseRenewal}
use distributed_image_proces.Worker.Sweep.{
  World, Cursor, Look, go_on, halt, end_of, renewed, check_bound, fetch, sweep, sweep_task,
  first_cursor,
}

-- The offsets from `start` to before `i`, each once and in order, each below the bound with it.
pub data Swept (start : ℕ) : List (ℕ × ℕ) → ℕ → Type 0 where
  nothing_yet : Swept start [] start
  and_one :
      {touched : List (ℕ × ℕ)} {i : ℕ} (bound : ℕ)
      → Swept start touched i
      → i < bound
      → Swept start (touched ++ (i, bound) ∷ []) (i + 1)

All-append :
    (Q : ℕ × ℕ → Type 0) (xs : List (ℕ × ℕ)) (x : ℕ × ℕ) → All Q xs → Q x → All Q (xs ++ x ∷ [])
All-append Q [] x a q = (q, tt)
All-append Q (y ∷ xs) x a q = (a.0, All-append Q xs x a.1 q)

pub get_elem?-in :
    {A : Type 0} (xs : List A) (i : ℕ) → i < length xs → (x : A) × (get_elem? xs i ≡ some x)
get_elem?-in [] i h = absurd (omega arith)
get_elem?-in (x ∷ xs) zero h = (x, refl)
get_elem?-in (x ∷ xs) (suc i) h = get_elem?-in xs i (omega arith)

pub end_of-le : (range_end : ℤ) (total : ℕ) → end_of range_end total ≤ total
unfolding end_of
end_of-le (pos n) total = ground arith
end_of-le (negsuc n) total = ground arith

module _ {E B : Type 0} (v : World E B) (worker_id : String) (Issued : ℕ → Type 0) where
  -- The work so far, for a range from `start` to `end`.
  pub record Leased (start end : ℕ) (c : Cursor E) : Type 0 where
    pub swept : Swept start c.touched c.i
    pub inside : All (λ x. x.0 < end) c.touched
    pub issued : All (λ x. Issued x.1) c.touched
    pub in_force : Issued c.bound

  -- A cursor as far as another, with a bound that was issued.
  record Same (c c' : Cursor E) : Type 0 where
    pub at : c'.i ≡ c.i
    pub seen : c'.touched ≡ c.touched
    pub bounded : Issued c'.bound

  data Checked (c : Cursor E) : Look E → Type 0 where
    passes : (c' : Cursor E) → Same c c' → c'.i < c'.bound → Checked c (go_on c')
    stops : (c' : Cursor E) → Same c c' → c'.bound ≤ c'.i → Checked c (halt c')

  -- The bounds that renewals answer are issued.
  abbrev pub Renews : Type 0
  Renews =
      (req : RenewLeaseRequest) (e : E) (r : LeaseRenewal)
      → (v.renew req e).0 ≡ some r
      → Issued r.bound

  renewed-Checked :
      (r : LeaseRenewal) (c c' : Cursor E)
      → Issued r.bound
      → c'.i ≡ c.i
      → c'.touched ≡ c.touched
      → Checked c (renewed v worker_id r c')
  unfolding renewed
  renewed-Checked r c c' p e t =
      let moved : Cursor E = record c' { bound = r.bound; gen = r.generation } in
      elim (Bool-cases (leb r.bound c'.i)) [
        | inl h ↦
            rw (renewed, h) (stops moved (record { at = e; seen = t; bounded = p }) (ground arith))
        | inr h ↦
            rw (renewed, h) (passes moved (record { at = e; seen = t; bounded = p }) (ground arith))
      ]

  check_bound-Checked :
      (task_id : String) (total : ℕ) (c : Cursor E)
      → Renews
      → Issued c.bound
      → Checked c (check_bound v worker_id task_id total c)
  unfolding check_bound
  check_bound-Checked task_id total c renews p =
      let req : RenewLeaseRequest = record {
        worker_id = worker_id;
        generation = pos c.gen;
        frontier = pos c.i;
        total = pos total;
      } in
      elim (Bool-cases (ltb c.i c.bound)) [
        | inl h ↦
            rw (check_bound, h)
              (passes c (record { at = refl; seen = refl; bounded = p }) (ground arith))
        | inr h ↦ elim (Option-cases ((v.renew req c.env).0)) [
          | inl e ↦
              rw (check_bound, h, e)
                (stops (record c { env = (v.renew req c.env).1 })
                  (record { at = refl; seen = refl; bounded = p }) (ground arith))
          | inr (r, e) ↦
              rw (check_bound, h, e)
                (renewed-Checked r c (record c { env = (v.renew req c.env).1 })
                  (renews req c.env r e) refl refl)
        ]
      ]

  fetch-Leased :
      (start end : ℕ) (key : String) (c c' : Cursor E)
      → Leased start end c
      → Same c c'
      → c'.i < c'.bound
      → c.i < end
      → Leased start end (fetch v worker_id key c')
  unfolding fetch
  fetch-Leased start end key c c' l s b h =
      let swept : Swept start c'.touched c'.i =
        subst (λ t. Swept start t c'.i) (sym s.seen)
          (subst (Swept start c.touched) (sym s.at) l.swept) in
      record {
        swept = and_one c'.bound swept b;
        inside =
            All-append (λ x. x.0 < end) c'.touched (c'.i, c'.bound)
              (subst (All (λ x. x.0 < end)) (sym s.seen) l.inside) (omega (arith, s.at));
        issued =
            All-append (λ x. Issued x.1) c'.touched (c'.i, c'.bound)
              (subst (All (λ x. Issued x.1)) (sym s.seen) l.issued) s.bounded;
        in_force = s.bounded;
      }

  -- The loop has ended: at the end of the range, or at a bound that was not moved on.
  pub record Ended (start end : ℕ) (result : Option (Cursor E)) : Type 0 where
    pub last : Cursor E
    pub returns : result ≡ some last
    pub leased : Leased start end last
    pub over : (end ≤ last.i) ⊎ (last.bound ≤ last.i)

  halted-Leased :
      (start end : ℕ) (c c' : Cursor E) → Leased start end c → Same c c' → Leased start end c'
  halted-Leased start end c c' l s = record {
    swept =
        subst (λ t. Swept start t c'.i) (sym s.seen)
          (subst (Swept start c.touched) (sym s.at) l.swept);
    inside = subst (All (λ x. x.0 < end)) (sym s.seen) l.inside;
    issued = subst (All (λ x. Issued x.1)) (sym s.seen) l.issued;
    in_force = s.bounded;
  }

  fetch-i : (key : String) (c : Cursor E) → (fetch v worker_id key c).i ≡ c.i + 1
  unfolding fetch
  fetch-i key c = refl

  -- The rest of a turn, once the bound was checked, if the loop ends well from every later cursor.
  look-Ended :
      (fuel : ℕ) (task_id : String) (keys : List String) (start end : ℕ) (c : Cursor E)
      {look : Look E}
      → ((c' : Cursor E)
          → end - c'.i ≤ fuel
          → Leased start end c'
          → Ended start end (sweep v worker_id fuel task_id keys end c'))
      → end ≤ length keys
      → end - c.i ≤ suc fuel
      → Leased start end c
      → c.i < end
      → Checked c look
      → Ended start end (elim look [
        | halt c' ↦ some c'
        | go_on c' ↦ elim (get_elem? keys c'.i) [
          | none ↦ none
          | some key ↦ sweep v worker_id fuel task_id keys end (fetch v worker_id key c')
        ]
      ])
  look-Ended fuel task_id keys start end c later fits enough l h (stops c' s b) = record {
    last = c';
    returns = refl;
    leased = halted-Leased start end c c' l s;
    over = inr b;
  }
  look-Ended fuel task_id keys start end c later fits enough l h (passes c' s b) =
      let found = get_elem?-in keys c'.i (omega (arith, s.at)) in
      rw (found.1) (
        later (fetch v worker_id found.0 c') (omega (arith, fetch-i found.0 c', s.at))
          (fetch-Leased start end found.0 c c' l s b h))

  sweep-Ended :
      (fuel : ℕ) (task_id : String) (keys : List String) (start end : ℕ) (c : Cursor E)
      → Renews
      → end ≤ length keys
      → end - c.i ≤ fuel
      → Leased start end c
      → Ended start end (sweep v worker_id fuel task_id keys end c)
  unfolding sweep
  sweep-Ended zero task_id keys start end c renews fits enough l = record {
    last = c;
    returns = refl;
    leased = l;
    over = inl (omega arith);
  }
  sweep-Ended (suc fuel) task_id keys start end c renews fits enough l =
      elim (Bool-cases (ltb c.i end)) [
        | inr h ↦
            rw (sweep, h)
              (record { last = c; returns = refl; leased = l; over = inl (ground arith) })
        | inl h ↦
            rw (sweep, h)
              (look-Ended fuel task_id keys start end c
                (λ c'. sweep-Ended fuel task_id keys start end c' renews fits) fits enough l
                (ground arith) (check_bound-Checked task_id (length keys) c renews l.in_force))
      ]

  -- Whatever the coordinator and the store answer: the loop ends, with no index out of range. It has
  -- asked for the offsets from the start of the range on, each once, in order and below its end, each
  -- below the bound then in force, which the assignment or a renewal had issued. It stopped at the
  -- end of the range, or at a bound that the last renewal had not moved on.
  pub sweep_task-Ended :
      (a : TaskAssignment) (keys : List String) (e : E)
      → Renews
      → Issued a.bound
      → Ended a.range_start (end_of a.range_end (length keys)) (sweep_task v worker_id a keys e)
  unfolding sweep_task first_cursor
  sweep_task-Ended a keys e renews p =
      let end = end_of a.range_end (length keys) in
      sweep-Ended (end - a.range_start) a.task_id keys a.range_start end
        (first_cursor v worker_id a e) renews (end_of-le a.range_end (length keys)) (omega arith)
        (record { swept = nothing_yet; inside = tt; issued = tt; in_force = p })
