-- ===== src/Pipeline/Prefetcher/Completion.antt =====
-- The number of steps that the goroutines of a Stream take.
use distributed_image_proces.Prelude.{
  ℕ, zero, suc, ◌+◌, ◌*◌, ◌≤◌, String, ◌≡◌, refl, sym, ap, ◌∙◌, ◌⊎◌, inl, inr, Bool, true, false,
  Option, List, [], ◌∷◌, ◌++◌, arith, ltb, length, IfSome, IfSome-bind, IfSome-some, IfSome-if,
}
use distributed_image_proces.Pipeline.Prefetcher.{
  GetAnswer, Prefetcher, Future, pending, filled, Producer, acquiring, sending, closed, Emitter,
  receiving, awaiting, offering, ended, gave_up, Streaming, new_stream, Event, produces,
  quits_producing, emits, quits_emitting, fills, releases, produce, quit_producing, receive_none,
  emit_next, quit_emitting, release_token, in_channel, fill, step, Run, starts, moves, cancels,
}

-- The steps that are left for a part.
abbrev left_work : Producer → ℕ
left_work (acquiring keys) = 7 * length keys + 1
left_work (sending key keys) = 7 * length keys + 7
left_work closed = 0

abbrev futures_work : List Future → ℕ
futures_work [] = 0
futures_work (pending key ∷ fs) = 5 + futures_work fs
futures_work (filled it ∷ fs) = 3 + futures_work fs

abbrev emitter_work : Emitter → ℕ
emitter_work receiving = 2
emitter_work awaiting = 1
emitter_work (offering it) = 3
emitter_work ended = 0
emitter_work gave_up = 0

abbrev work : Streaming → ℕ
work s = left_work s.producer + futures_work s.futures + s.returning + emitter_work s.emitter

futures_work-append :
    (fs : List Future) (key : String) → futures_work (fs ++ pending key ∷ []) ≡ futures_work fs + 5
futures_work-append [] key = refl
futures_work-append (pending k ∷ fs) key = omega (arith, futures_work-append fs key)
futures_work-append (filled it ∷ fs) key = omega (arith, futures_work-append fs key)

-- The emitter has ended.
abbrev pub is_over : Emitter → Bool
is_over receiving = false
is_over awaiting = false
is_over (offering it) = false
is_over ended = true
is_over gave_up = true

-- It ends on a cancelled context or a closed channel.
abbrev pub Closing : Streaming → Type 0
Closing s = is_over s.emitter ≡ true → (s.cancelled ≡ true) ⊎ (s.producer ≡ closed)

-- A step uses up some work and keeps `Closing`.
record Moved (s s' : Streaming) : Type 0 where
  less : work s' + 1 ≤ work s
  closing : Closing s → Closing s'

abbrev Moves : Streaming → Option Streaming → Type 0
Moves s o = IfSome (Moved s) o

produce-Moved :
    (depth : ℕ) (p : Producer) (s : Streaming) → p ≡ s.producer → Moves s (produce depth p s)
unfolding produce
produce-Moved depth (acquiring []) s h = record {
  less = let w = ap left_work h in omega (arith, w);
  closing = λ c o. inr refl;
}
produce-Moved depth (acquiring (key ∷ rest)) s h = IfSome-if (Moved s) (ltb s.tokens depth) _ (λ t.
    record {
      less = let w = ap left_work h in omega (arith, w);
      closing = λ c o. elim (c o) [ inl e ↦ inl e | inr e ↦ absurd (cc (h ∙ e)) ];
    })
produce-Moved depth (sending key rest) s h = IfSome-if (Moved s) (ltb (in_channel s) depth) _ (λ t.
    record {
      less = let w = ap left_work h in omega (arith, w, futures_work-append s.futures key);
      closing = λ c o. elim (c o) [ inl e ↦ inl e | inr e ↦ absurd (cc (h ∙ e)) ];
    })
produce-Moved depth closed s h = tt

quit_producing-Moved :
    (p : Producer) (s : Streaming) → p ≡ s.producer → Moves s (quit_producing p s)
unfolding quit_producing
quit_producing-Moved (acquiring []) s h = tt
quit_producing-Moved (acquiring (key ∷ rest)) s h =
    IfSome-if (Moved s) s.cancelled _
      (λ t. record { less = let w = ap left_work h in omega (arith, w); closing = λ c o. inr refl })
quit_producing-Moved (sending key rest) s h =
    IfSome-if (Moved s) s.cancelled _
      (λ t. record { less = let w = ap left_work h in omega (arith, w); closing = λ c o. inr refl })
quit_producing-Moved closed s h = tt

quit_emitting-Moved : (e : Emitter) (s : Streaming) → e ≡ s.emitter → Moves s (quit_emitting e s)
unfolding quit_emitting
quit_emitting-Moved receiving s h = tt
quit_emitting-Moved awaiting s h =
    IfSome-if (Moved s) s.cancelled _
      (λ t. record { less = let w = ap emitter_work h in omega (arith, w); closing = λ c o. inl t })
quit_emitting-Moved (offering it) s h =
    IfSome-if (Moved s) s.cancelled _
      (λ t. record { less = let w = ap emitter_work h in omega (arith, w); closing = λ c o. inl t })
quit_emitting-Moved ended s h = tt
quit_emitting-Moved gave_up s h = tt

receive_none-Moved :
    (p : Producer) (s : Streaming)
    → p ≡ s.producer
    → receiving ≡ s.emitter
    → Moves s (receive_none p s)
unfolding receive_none
receive_none-Moved closed s h g = record {
  less = let w = ap emitter_work g in omega (arith, w);
  closing = λ c o. inr (sym h);
}
receive_none-Moved (acquiring rest) s h g = tt
receive_none-Moved (sending key rest) s h g = tt

emit_next-Moved :
    (e : Emitter) (fs : List Future) (s : Streaming)
    → e ≡ s.emitter
    → fs ≡ s.futures
    → Moves s (emit_next e fs s)
unfolding emit_next
emit_next-Moved receiving [] s h g = receive_none-Moved s.producer s refl h
emit_next-Moved receiving (f ∷ fs) s h g = record {
  less = let w = ap emitter_work h in omega (arith, w);
  closing = λ c o. cc;
}
emit_next-Moved awaiting [] s h g = tt
emit_next-Moved awaiting (pending key ∷ fs) s h g = tt
emit_next-Moved awaiting (filled it ∷ fs) s h g = record {
  less = let w = ap emitter_work h in let v = ap futures_work g in omega (arith, w, v);
  closing = λ c o. cc;
}
emit_next-Moved (offering it) fs s h g = record {
  less = let w = ap emitter_work h in omega (arith, w);
  closing = λ c o. cc;
}
emit_next-Moved ended fs s h g = tt
emit_next-Moved gave_up fs s h g = tt

release_token-Moved : (n : ℕ) (s : Streaming) → n ≡ s.returning → Moves s (release_token n s)
unfolding release_token
release_token-Moved zero s h = tt
release_token-Moved (suc n) s h = record { less = omega (arith, h); closing = λ c. c }

module _ (get : String → GetAnswer) where
  fill-work :
      (i : ℕ) (fs : List Future)
      → IfSome (λ fs'. futures_work fs' + 2 ≡ futures_work fs) (fill get i fs)
  unfolding fill
  fill-work i [] = tt
  fill-work zero (pending key ∷ fs) = omega arith
  fill-work zero (filled it ∷ fs) = tt
  fill-work (suc i) (pending key ∷ fs) =
      IfSome-bind _ (fill get i fs) _
        (λ fs' e. let r = IfSome-some _ _ fs' (fill-work i fs) e in omega (arith, r))
  fill-work (suc i) (filled it ∷ fs) =
      IfSome-bind _ (fill get i fs) _
        (λ fs' e. let r = IfSome-some _ _ fs' (fill-work i fs) e in omega (arith, r))

  step-Moved : (depth : ℕ) (e : Event) (s : Streaming) → Moves s (step get depth e s)
  unfolding step
  step-Moved depth produces s = produce-Moved depth s.producer s refl
  step-Moved depth quits_producing s = quit_producing-Moved s.producer s refl
  step-Moved depth emits s = emit_next-Moved s.emitter s.futures s refl refl
  step-Moved depth quits_emitting s = quit_emitting-Moved s.emitter s refl
  step-Moved depth (fills i) s = IfSome-bind (Moved s) (fill get i s.futures) _ (λ fs e.
      let r = IfSome-some _ _ fs (fill-work i s.futures) e in
      record { less = omega (arith, r); closing = λ c. c })
  step-Moved depth releases s = release_token-Moved s.returning s refl

  module _ (p : Prefetcher) (keys : List String) where
    pub Run-Closing : {n : ℕ} {s : Streaming} → Run get p keys n s → Closing s
    unfolding new_stream
    Run-Closing starts = λ o. cc
    Run-Closing (moves {s} {s'} e h run) =
        (IfSome-some (Moved s) _ s' (step-Moved p.depth e s) h).closing (Run-Closing run)
    Run-Closing (cancels run) = λ o. inl refl

    Run-work : {n : ℕ} {s : Streaming} → Run get p keys n s → n + work s ≤ 7 * length keys + 3
    unfolding new_stream
    Run-work starts = omega arith
    Run-work (moves {s} {s'} e h run) =
        omega (arith, (IfSome-some (Moved s) _ s' (step-Moved p.depth e s) h).less, Run-work run)
    Run-work (cancels run) = Run-work run

    -- The goroutines of a Stream take at most seven steps for each key and three more.
    pub Run-length : {n : ℕ} {s : Streaming} → Run get p keys n s → n ≤ 7 * length keys + 3
    Run-length run = omega (arith, Run-work run)
