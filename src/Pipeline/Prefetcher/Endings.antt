-- ===== src/Pipeline/Prefetcher/Endings.antt =====
-- Where a Stream stops.
use distributed_image_proces.Prelude.{
  ◌>>=◌, ℕ, zero, suc, ◌+◌, ◌≤◌, String, ◌≡◌, refl, sym, ap, ◌∙◌, ◌⊎◌, inl, inr, true, false,
  Option, none, some, List, [], ◌∷◌, ◌++◌, map, arith, ltb, length, ℤ, pos, negsuc,
}
use mathlib.Core.List.{append-nil}
use distributed_image_proces.Pipeline.Prefetcher.{
  GetAnswer, Item, new_prefetcher, Future, pending, filled, Producer, acquiring, sending, closed,
  Emitter, receiving, awaiting, offering, ended, gave_up, Streaming, Event, produces,
  quits_producing, emits, fills, releases, produce, quit_producing, receive_none, emit_next,
  release_token, in_channel, off_channel, fetch, fill, step, Run,
}
use distributed_image_proces.Pipeline.Prefetcher.Order.{offered, to_come, Run-kept}
use distributed_image_proces.Pipeline.Prefetcher.Bounds.{in_hand, running, Run-Bounded}
use distributed_image_proces.Pipeline.Prefetcher.Completion.{is_over, Closing, Run-Closing}

new_prefetcher-depth : (d : ℤ) → 1 ≤ (new_prefetcher d).depth
unfolding new_prefetcher
new_prefetcher-depth (pos n) = ground arith
new_prefetcher-depth (negsuc n) = omega arith

bind-none : {A B : Type 0} (m : Option A) (f : A → B) → (do a ← m; some (f a)) ≡ none → m ≡ none
bind-none none f h = refl
bind-none (some a) f h = absurd (cc h)

-- Nobody waits for a fetch: the emitter has ended, or it waits for the next future.
emit_next-waits :
    (e : Emitter) (fs : List Future) (s : Streaming)
    → running fs ≡ 0
    → emit_next e fs s ≡ none
    → (is_over e ≡ true) ⊎ (fs ≡ [])
unfolding emit_next
emit_next-waits receiving [] s r h = inr refl
emit_next-waits receiving (f ∷ fs) s r h = absurd (cc h)
emit_next-waits awaiting [] s r h = inr refl
emit_next-waits awaiting (pending key ∷ fs) s r h = absurd (omega (arith, r))
emit_next-waits awaiting (filled it ∷ fs) s r h = absurd (cc h)
emit_next-waits (offering it) fs s r h = absurd (cc h)
emit_next-waits ended fs s r h = inl refl
emit_next-waits gave_up fs s r h = inl refl

emit_next-closed :
    (e : Emitter) (fs : List Future) (s : Streaming)
    → s.producer ≡ closed
    → running fs ≡ 0
    → off_channel e ≤ length fs
    → emit_next e fs s ≡ none
    → is_over e ≡ true
unfolding emit_next receive_none
emit_next-closed receiving [] s c r t h = absurd (cc (ap (λ p. receive_none p s) (sym c) ∙ h))
emit_next-closed receiving (f ∷ fs) s c r t h = absurd (cc h)
emit_next-closed awaiting [] s c r t h = absurd (omega (arith, t))
emit_next-closed awaiting (pending key ∷ fs) s c r t h = absurd (omega (arith, r))
emit_next-closed awaiting (filled it ∷ fs) s c r t h = absurd (cc h)
emit_next-closed (offering it) fs s c r t h = absurd (cc h)
emit_next-closed ended fs s c r t h = refl
emit_next-closed gave_up fs s c r t h = refl

release_token-none : (n : ℕ) (s : Streaming) → release_token n s ≡ none → n ≡ 0
unfolding release_token
release_token-none zero s h = refl
release_token-none (suc n) s h = absurd (cc h)

-- A producer that waits for room in the channel finds it once the futures are read.
produce-closed :
    (depth : ℕ) (p : Producer) (s : Streaming)
    → p ≡ s.producer
    → 1 ≤ depth
    → s.tokens ≡ in_hand s.producer
    → produce depth p s ≡ none
    → quit_producing p s ≡ none
    → (is_over s.emitter ≡ true) ⊎ (s.futures ≡ [])
    → Closing s
    → p ≡ closed
unfolding produce quit_producing
produce-closed depth (acquiring []) s e d t h q w c = absurd (cc h)
produce-closed depth (acquiring (key ∷ rest)) s e d t h q w c =
    let held = ap in_hand e in
    let free : ltb s.tokens depth ≡ true = ground (arith, t, held, d) in
    absurd (ground (arith, free, h))
produce-closed depth (sending key rest) s e d t h q w c = elim w [
  | inl o ↦ elim (c o) [ inl k ↦ absurd (ground (arith, k, q)) | inr k ↦ absurd (cc (e ∙ k)) ]
  | inr n ↦
      let none_left : length s.futures ≡ 0 = ap length n in
      let room : ltb (in_channel s) depth ≡ true = ground (arith, none_left, d) in
      absurd (ground (arith, room, h))
]
produce-closed depth closed s e d t h q w c = refl

-- All goroutines of the stream have ended.
pub record Done (s : Streaming) : Type 0 where
  pub producer_ended : s.producer ≡ closed
  pub emitter_ended : is_over s.emitter ≡ true
  pub fetches_ended : running s.futures + s.returning ≡ 0

over-yields : (e : Emitter) (l : List Item) → is_over e ≡ true → offered e ++ to_come e l ≡ []
over-yields receiving l h = absurd (cc h)
over-yields awaiting l h = absurd (cc h)
over-yields (offering it) l h = absurd (cc h)
over-yields ended l h = refl
over-yields gave_up l h = refl

module _ (get : String → GetAnswer) where
  fill-stuck : (fs : List Future) → ((i : ℕ) → fill get i fs ≡ none) → running fs ≡ 0
  unfolding fill
  fill-stuck [] h = refl
  fill-stuck (pending key ∷ fs) h = absurd (cc (h 0))
  fill-stuck (filled it ∷ fs) h =
      fill-stuck fs (λ i. bind-none (fill get i fs) (λ fs'. filled it ∷ fs') (h (suc i)))

  -- No goroutine can take a step, though the consumer receives.
  abbrev pub Stuck : ℕ → Streaming → Type 0
  Stuck depth s = (e : Event) → step get depth e s ≡ none

  module _ (d : ℤ) (keys : List String) where
    -- In any run of a Stream: where no goroutine can go on, though the consumer receives, all of them
    -- have ended.
    pub Run-Done :
        {n : ℕ} {s : Streaming}
        → Run get (new_prefetcher d) keys n s
        → Stuck (new_prefetcher d).depth s
        → Done s
    unfolding step
    Run-Done {s} run stuck =
        let b = Run-Bounded get (new_prefetcher d) keys run in
        let idle =
          fill-stuck s.futures (λ i. bind-none (fill get i s.futures) _ (stuck (fills i))) in
        let returned = release_token-none s.returning s (stuck releases) in
        let over =
          produce-closed (new_prefetcher d).depth s.producer s refl (new_prefetcher-depth d)
            (omega (arith, b.owned, idle, returned)) (stuck produces) (stuck quits_producing)
            (emit_next-waits s.emitter s.futures s idle (stuck emits))
            (Run-Closing get (new_prefetcher d) keys run) in
        record {
          producer_ended = over;
          emitter_ended = emit_next-closed s.emitter s.futures s over idle b.awaited (stuck emits);
          fetches_ended = omega (arith, idle, returned);
        }

    -- A run of a Stream whose context is not cancelled, and in which no goroutine can go on though the
    -- consumer receives, has given the consumer one item for each key, in the order of the keys.
    pub Run-complete :
        {n : ℕ} {s : Streaming}
        → Run get (new_prefetcher d) keys n s
        → Stuck (new_prefetcher d).depth s
        → s.cancelled ≡ false
        → s.emitted ≡ map (fetch get) keys
    Run-complete {s} run stuck c =
        let done = Run-Done run stuck in
        sym (append-nil s.emitted)
        ∙ ap (λ l. s.emitted ++ l) (sym (over-yields s.emitter _ done.emitter_ended))
        ∙ Run-kept get keys run c
