-- ===== src/Pipeline/Prefetcher/Bounds.antt =====
-- How many fetches of a Stream run at a time, and how many items are buffered.
use distributed_image_proces.Prelude.{
  ℕ, zero, suc, ◌+◌, ◌≤◌, ◌<◌, String, ◌≡◌, refl, sym, ap, ◌∙◌, Option, List, [], ◌∷◌, ◌++◌, arith,
  ltb, length, length-append, IfSome, IfSome-bind, IfSome-some, IfSome-if,
}
use distributed_image_proces.Pipeline.Prefetcher.{
  GetAnswer, Prefetcher, Future, pending, filled, Producer, acquiring, sending, closed, Emitter,
  receiving, awaiting, offering, ended, gave_up, Streaming, new_stream, Event, produces,
  quits_producing, emits, quits_emitting, fills, releases, produce, quit_producing, receive_none,
  emit_next, quit_emitting, release_token, in_channel, off_channel, fill, step, Run, starts, moves,
  cancels,
}
use distributed_image_proces.Pipeline.Prefetcher.Order.{offered}

-- The token that the producer holds.
abbrev pub in_hand : Producer → ℕ
in_hand (acquiring keys) = 0
in_hand (sending key keys) = 1
in_hand closed = 0

-- The fetches that run.
abbrev pub running : List Future → ℕ
running [] = 0
running (pending key ∷ fs) = suc (running fs)
running (filled it ∷ fs) = running fs

pub running-append :
    (fs : List Future) (key : String) → running (fs ++ pending key ∷ []) ≡ running fs + 1
running-append [] key = refl
running-append (pending k ∷ fs) key = omega (arith, running-append fs key)
running-append (filled it ∷ fs) key = running-append fs key

-- Every token belongs to a goroutine, and no channel holds more than its capacity.
pub record Bounded (depth : ℕ) (s : Streaming) : Type 0 where
  pub owned : s.tokens ≡ in_hand s.producer + running s.futures + s.returning
  pub capped : s.tokens ≤ depth
  pub fits : length s.futures ≤ depth + off_channel s.emitter
  pub awaited : off_channel s.emitter ≤ length s.futures

module _ (get : String → GetAnswer) where
  pub fill-running :
      (i : ℕ) (fs : List Future)
      → IfSome (λ fs'. (running fs' + 1 ≡ running fs) × (length fs' ≡ length fs)) (fill get i fs)
  unfolding fill
  fill-running i [] = tt
  fill-running zero (pending key ∷ fs) = (omega arith, refl)
  fill-running zero (filled it ∷ fs) = tt
  fill-running (suc i) (pending key ∷ fs) = IfSome-bind _ (fill get i fs) _ (λ fs' e.
      let (r, l) = IfSome-some _ _ fs' (fill-running i fs) e in (omega arith, omega arith))
  fill-running (suc i) (filled it ∷ fs) =
      IfSome-bind _ (fill get i fs) _
        (λ fs' e. let (r, l) = IfSome-some _ _ fs' (fill-running i fs) e in (r, omega arith))

module _ (depth : ℕ) where
  abbrev Keeps : Option Streaming → Type 0
  Keeps o = IfSome (Bounded depth) o

  produce-Bounded :
      (p : Producer) (s : Streaming) → p ≡ s.producer → Bounded depth s → Keeps (produce depth p s)
  unfolding produce
  produce-Bounded (acquiring []) s h b = record {
    owned = b.owned ∙ ap (λ p. in_hand p + running s.futures + s.returning) (sym h);
    capped = b.capped;
    fits = b.fits;
    awaited = b.awaited;
  }
  produce-Bounded (acquiring (key ∷ rest)) s h b =
      IfSome-if (Bounded depth) (ltb s.tokens depth) _ (λ c.
        let held = ap in_hand h in
        record {
          owned = omega (arith, b.owned, held);
          capped = ground (arith, c);
          fits = b.fits;
          awaited = b.awaited;
        })
  produce-Bounded (sending key rest) s h b =
      IfSome-if (Bounded depth) (ltb (in_channel s) depth) _ (λ c.
        let held = ap in_hand h in
        let room : in_channel s < depth = ground arith in
        let longer = length-append s.futures (pending key ∷ []) in
        record {
          owned = omega (arith, b.owned, held, running-append s.futures key);
          capped = b.capped;
          fits = omega (arith, room, b.awaited, longer);
          awaited = omega (arith, b.awaited, longer);
        })
  produce-Bounded closed s h b = tt

  quit_producing-Bounded :
      (p : Producer) (s : Streaming) → p ≡ s.producer → Bounded depth s → Keeps (quit_producing p s)
  unfolding quit_producing
  quit_producing-Bounded (acquiring []) s h b = tt
  quit_producing-Bounded (acquiring (key ∷ rest)) s h b =
      IfSome-if (Bounded depth) s.cancelled _ (λ c. record {
        owned = b.owned ∙ ap (λ p. in_hand p + running s.futures + s.returning) (sym h);
        capped = b.capped;
        fits = b.fits;
        awaited = b.awaited;
      })
  quit_producing-Bounded (sending key rest) s h b = IfSome-if (Bounded depth) s.cancelled _ (λ c.
      record {
        owned = let held = ap in_hand h in omega (arith, b.owned, held);
        capped = let c = b.capped in omega arith;
        fits = b.fits;
        awaited = b.awaited;
      })
  quit_producing-Bounded closed s h b = tt

  quit_emitting-Bounded :
      (e : Emitter) (s : Streaming) → e ≡ s.emitter → Bounded depth s → Keeps (quit_emitting e s)
  unfolding quit_emitting
  quit_emitting-Bounded receiving s h b = tt
  quit_emitting-Bounded awaiting s h b = IfSome-if (Bounded depth) s.cancelled _ (λ c. record {
    owned = b.owned;
    capped = b.capped;
    fits = let out = ap off_channel h in omega (arith, b.fits, out);
    awaited = let out = ap off_channel h in omega (arith, b.awaited, out);
  })
  quit_emitting-Bounded (offering it) s h b = IfSome-if (Bounded depth) s.cancelled _ (λ c. record {
    owned = b.owned;
    capped = b.capped;
    fits = let out = ap off_channel h in omega (arith, b.fits, out);
    awaited = omega arith;
  })
  quit_emitting-Bounded ended s h b = tt
  quit_emitting-Bounded gave_up s h b = tt

  receive_none-Bounded :
      (p : Producer) (s : Streaming)
      → receiving ≡ s.emitter
      → Bounded depth s
      → Keeps (receive_none p s)
  unfolding receive_none
  receive_none-Bounded closed s h b = record {
    owned = b.owned;
    capped = b.capped;
    fits = let out = ap off_channel h in omega (arith, b.fits, out);
    awaited = omega arith;
  }
  receive_none-Bounded (acquiring rest) s h b = tt
  receive_none-Bounded (sending key rest) s h b = tt

  emit_next-Bounded :
      (e : Emitter) (fs : List Future) (s : Streaming)
      → e ≡ s.emitter
      → fs ≡ s.futures
      → Bounded depth s
      → Keeps (emit_next e fs s)
  unfolding emit_next
  emit_next-Bounded receiving [] s h g b = receive_none-Bounded s.producer s h b
  emit_next-Bounded receiving (f ∷ fs) s h g b = record {
    owned = b.owned;
    capped = b.capped;
    fits = let out = ap off_channel h in omega (arith, b.fits, out);
    awaited = let more = ap length g in omega (arith, more);
  }
  emit_next-Bounded awaiting [] s h g b = tt
  emit_next-Bounded awaiting (pending key ∷ fs) s h g b = tt
  emit_next-Bounded awaiting (filled it ∷ fs) s h g b =
      let more = ap length g in
      let out = ap off_channel h in
      record {
        owned = b.owned ∙ ap (λ l. in_hand s.producer + running l + s.returning) (sym g);
        capped = b.capped;
        fits = omega (arith, b.fits, more, out);
        awaited = omega arith;
      }
  emit_next-Bounded (offering it) fs s h g b = record {
    owned = b.owned;
    capped = b.capped;
    fits = let out = ap off_channel h in omega (arith, b.fits, out);
    awaited = omega arith;
  }
  emit_next-Bounded ended fs s h g b = tt
  emit_next-Bounded gave_up fs s h g b = tt

  release_token-Bounded :
      (n : ℕ) (s : Streaming) → n ≡ s.returning → Bounded depth s → Keeps (release_token n s)
  unfolding release_token
  release_token-Bounded zero s h b = tt
  release_token-Bounded (suc n) s h b = record {
    owned = omega (arith, b.owned, h);
    capped = let c = b.capped in omega arith;
    fits = b.fits;
    awaited = b.awaited;
  }

  step-Bounded :
      (get : String → GetAnswer) (e : Event) (s : Streaming)
      → Bounded depth s
      → Keeps (step get depth e s)
  unfolding step
  step-Bounded get produces s b = produce-Bounded s.producer s refl b
  step-Bounded get quits_producing s b = quit_producing-Bounded s.producer s refl b
  step-Bounded get emits s b = emit_next-Bounded s.emitter s.futures s refl refl b
  step-Bounded get quits_emitting s b = quit_emitting-Bounded s.emitter s refl b
  step-Bounded get (fills i) s b = IfSome-bind (Bounded depth) (fill get i s.futures) _ (λ fs e.
      let (r, l) = IfSome-some _ _ fs (fill-running get i s.futures) e in
      record {
        owned = omega (arith, b.owned, r);
        capped = b.capped;
        fits = omega (arith, b.fits, l);
        awaited = omega (arith, b.awaited, l);
      })
  step-Bounded get releases s b = release_token-Bounded s.returning s refl b

module _ (get : String → GetAnswer) (p : Prefetcher) (keys : List String) where
  pub Run-Bounded : {n : ℕ} {s : Streaming} → Run get p keys n s → Bounded p.depth s
  unfolding new_stream
  Run-Bounded starts = record {
    owned = refl;
    capped = omega arith;
    fits = omega arith;
    awaited = omega arith;
  }
  Run-Bounded (moves {s} {s'} e h run) =
      IfSome-some (Bounded p.depth) _ s' (step-Bounded p.depth get e s (Run-Bounded run)) h
  Run-Bounded (cancels run) =
      let b = Run-Bounded run in
      record { owned = b.owned; capped = b.capped; fits = b.fits; awaited = b.awaited }

  buffered :
      (e : Emitter) (m : ℕ) → m ≤ p.depth + off_channel e → m + length (offered e) ≤ p.depth + 1
  buffered receiving m h = omega arith
  buffered awaiting m h = omega arith
  buffered (offering it) m h = omega arith
  buffered ended m h = omega arith
  buffered gave_up m h = omega arith

  -- In any run, at most `depth` fetches run at a time, and the objects that are fetched or being
  -- fetched, and that the consumer does not have yet, are at most `depth + 1`.
  pub Run-buffered :
      {n : ℕ} {s : Streaming}
      → Run get p keys n s
      → (running s.futures ≤ p.depth)
        × (length s.futures + length (offered s.emitter) ≤ p.depth + 1)
  Run-buffered {s} run =
      let b = Run-Bounded run in
      (omega (arith, b.owned, b.capped), buffered s.emitter (length s.futures) b.fits)
