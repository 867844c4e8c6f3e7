-- ===== src/Scheduler/Dispatch/Queue.antt =====
-- Which queued task PollTasks takes.
use distributed_image_proces.Scheduler.Dispatch.{choose, waiting, is_local, fall_back, prefer}
use distributed_image_proces.Scheduler.Job.{Task}
use distributed_image_proces.Prelude.{
  ℕ, suc, ◌+◌, String, ◌≡◌, refl, sym, ap, ◌∙◌, inl, inr, true, false, Option, none, some, List, [],
  ◌∷◌, arith, if◌then◌else◌, Bool-cases, Option-cases, get_elem?, All, ℤ, ltb_ℤ,
}

module _ (owner_of : String → String) (worker : String) (tasks : List (String × Task)) where
  -- The index of the first queued task that is local to the worker.
  unfoldable pub first_local : ℕ → List String → Option ℕ
  first_local i [] = none
  first_local i (tid ∷ q) =
      let rest = first_local (i + 1) q in
      if is_local owner_of worker tasks tid then some i else rest

  -- The fallback after the whole queue.
  unfoldable pub last_resort : ℕ → Option (ℕ × ℤ) → List String → Option (ℕ × ℤ)
  last_resort i best [] = best
  last_resort i best (tid ∷ q) = last_resort (i + 1) (fall_back owner_of worker tasks i tid best) q

  -- The loop of PollTasks takes the first local task, and without one the fallback.
  pub choose_lem :
      (i : ℕ) (best : Option (ℕ × ℤ)) (q : List String)
      → choose owner_of worker tasks i best q ≡ (elim (first_local i q) [
        | some j ↦ some j
        | none ↦ elim (last_resort i best q) [ none ↦ none | some (j, _) ↦ some j ]
      ])
  unfolding choose first_local last_resort
  choose_lem i best [] = refl
  choose_lem i best (tid ∷ q) =
      ground (arith, choose_lem (i + 1) (fall_back owner_of worker tasks i tid best) q)

  -- A queue position holds a pending task of the given priority.
  abbrev pub Candidate : List String → ℕ → ℤ → Type 0
  Candidate full j p =
      (tid : String) × (t : Task) × (get_elem? full j ≡ some tid)
      × (waiting owner_of worker tasks tid ≡ some t)
      × (t.priority ≡ p)

  abbrev pub BestOk : List String → Option (ℕ × ℤ) → Type 0
  BestOk full none = Unit
  BestOk full (some (j, p)) = Candidate full j p

  -- A priority that does not exceed the fallback's.
  abbrev pub AtMost : ℤ → Option (ℕ × ℤ) → Type 0
  AtMost p none = ⊥
  AtMost p (some (j, b)) = ltb_ℤ b p ≡ false

  prefer-BestOk :
      (full : List String) (i : ℕ) (tid : String) (t : Task) (best : Option (ℕ × ℤ))
      → get_elem? full i ≡ some tid
      → waiting owner_of worker tasks tid ≡ some t
      → BestOk full best
      → BestOk full (prefer i t best)
  unfolding prefer
  prefer-BestOk full i tid t none e w _ = (tid, t, e, w, refl)
  prefer-BestOk full i tid t (some (j, pri)) e w c = elim (Bool-cases (ltb_ℤ pri t.priority)) [
    | inl h ↦ rw h (tid, t, e, w, refl)
    | inr h ↦ rw h c
  ]

  prefer-AtMost :
      (i : ℕ) (t : Task) (p : ℤ) (best : Option (ℕ × ℤ))
      → AtMost t.priority (prefer i t best) × (AtMost p best → AtMost p (prefer i t best))
  unfolding prefer
  prefer-AtMost i t p none = (ground arith, λ h. absurd h)
  prefer-AtMost i t p (some (j, pri)) = elim (Bool-cases (ltb_ℤ pri t.priority)) [
    | inl h ↦ rw h (ground arith, ground arith)
    | inr h ↦ rw h (h, λ k. k)
  ]

  pub last_resort-BestOk :
      (full : List String) (i : ℕ) (best : Option (ℕ × ℤ)) (q : List String)
      → ((d : ℕ) → get_elem? q d ≡ get_elem? full (i + d))
      → BestOk full best
      → BestOk full (last_resort i best q)
  unfolding last_resort fall_back
  last_resort-BestOk full i best [] at ok = ok
  last_resort-BestOk full i best (tid ∷ q) at ok =
      let here : get_elem? full i ≡ some tid = sym (at 0 ∙ ap (get_elem? full) (omega arith)) in
      last_resort-BestOk full (i + 1) (fall_back owner_of worker tasks i tid best) q
        (λ d. at (suc d) ∙ ap (get_elem? full) (omega arith))
        (elim (Option-cases (waiting owner_of worker tasks tid)) [
          | inl w ↦ rw (w, fall_back) ok
          | inr (t, w) ↦ rw (w, fall_back) (prefer-BestOk full i tid t best here w ok)
        ])

  -- No pending task of the queue has a priority above the fallback's.
  pub last_resort-AtMost :
      (i : ℕ) (best : Option (ℕ × ℤ)) (q : List String)
      → ((p : ℤ) → AtMost p best → AtMost p (last_resort i best q))
        × All
            (λ tid.
              (t : Task)
              → waiting owner_of worker tasks tid ≡ some t
              → AtMost t.priority (last_resort i best q))
            q
  unfolding last_resort fall_back
  last_resort-AtMost i best [] = (λ p h. h, tt)
  last_resort-AtMost i best (tid ∷ q) =
      let best' = fall_back owner_of worker tasks i tid best in
      let (keep, rest) = last_resort-AtMost (i + 1) best' q in
      (
        λ p h. keep p (elim (Option-cases (waiting owner_of worker tasks tid)) [
          | inl w ↦ rw (w, fall_back) h
          | inr (t, w) ↦ rw (w, fall_back) ((prefer-AtMost i t p best).1 h)
        ]),
        (λ t w. keep t.priority (rw (w, fall_back) (prefer-AtMost i t t.priority best).0), rest),
      )

  pub first_local_found :
      (full : List String) (i j : ℕ) (q : List String)
      → ((d : ℕ) → get_elem? q d ≡ get_elem? full (i + d))
      → first_local i q ≡ some j
      → (tid : String) × (get_elem? full j ≡ some tid) × (is_local owner_of worker tasks tid ≡ true)
  unfolding first_local
  first_local_found full i j [] at e = cc
  first_local_found full i j (tid ∷ q) at e =
      let here : get_elem? full i ≡ some tid = sym (at 0 ∙ ap (get_elem? full) (omega arith)) in
      elim (Bool-cases (is_local owner_of worker tasks tid)) [
        | inl l ↦ let same : i ≡ j = ground arith in (tid, rw (← same) here, l)
        | inr l ↦
            first_local_found full (i + 1) j q (λ d. at (suc d) ∙ ap (get_elem? full) (omega arith))
              (ground arith)
      ]

  pub first_local-none :
      (i : ℕ) (q : List String)
      → first_local i q ≡ none
      → All (λ tid. is_local owner_of worker tasks tid ≡ false) q
  unfolding first_local
  first_local-none i [] e = tt
  first_local-none i (tid ∷ q) e = (ground arith, first_local-none (i + 1) q (ground arith))
