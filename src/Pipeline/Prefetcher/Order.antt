-- ===== src/Pipeline/Prefetcher/Order.antt =====
-- The order of the items of a Stream.
use distributed_image_proces.Prelude.{
  ℕ, zero, suc, String, ◌≡◌, refl, sym, ap, ◌∙◌, Bool, true, false, Option, List, [], ◌∷◌, ◌++◌,
  map, ltb, IfSome, IfSome-bind, IfSome-some, IfSome-if, subst,
}
use mathlib.Core.List.{append-nil, append_assoc}
use distributed_image_proces.Pipeline.Prefetcher.{
  GetAnswer, Item, Prefetcher, Future, pending, filled, Producer, acquiring, sending, closed,
  Emitter, receiving, awaiting, offering, ended, gave_up, Streaming, new_stream, Event, produces,
  quits_producing, emits, quits_emitting, fills, releases, produce, quit_producing, receive_none,
  emit_next, quit_emitting, release_token, in_channel, fetch, fill, step, Run, starts, moves,
  cancels,
}

-- The keys whose fetch has not been started.
abbrev pub left_keys : Producer → List String
left_keys (acquiring keys) = keys
left_keys (sending key keys) = key ∷ keys
left_keys closed = []

-- The item in the emitter's hand.
abbrev pub offered : Emitter → List Item
offered receiving = []
offered awaiting = []
offered (offering it) = it ∷ []
offered ended = []
offered gave_up = []

-- What is to come goes to the consumer while the emitter runs.
abbrev pub to_come : Emitter → List Item → List Item
to_come receiving l = l
to_come awaiting l = l
to_come (offering it) l = l
to_come ended l = []
to_come gave_up l = []

to_come-append :
    (e : Emitter) (xs ys : List Item) → to_come e (xs ++ ys) ≡ to_come e xs ++ to_come e ys
to_come-append receiving xs ys = refl
to_come-append awaiting xs ys = refl
to_come-append (offering it) xs ys = refl
to_come-append ended xs ys = refl
to_come-append gave_up xs ys = refl

-- The items `whole` are those that the consumer has, the one in hand, those to come, and some that
-- are lost, which takes a cancelled context.
pub record Ordered (whole : List Item) (e : Emitter) (out coming : List Item) (cancelled : Bool)
    : Type 0 where
  pub lost : List Item
  pub yields : out ++ (offered e ++ (to_come e coming ++ lost)) ≡ whole
  pub kept : cancelled ≡ false → lost ≡ []

module _ (get : String → GetAnswer) where
  abbrev pub future_item : Future → Item
  future_item (pending key) = fetch get key
  future_item (filled it) = it

  -- The items of the futures, and of the keys that are left.
  abbrev pub coming : List Future → Producer → List Item
  coming [] p = map (fetch get) (left_keys p)
  coming (f ∷ fs) p = future_item f ∷ coming fs p

  pub OrderedAt : List String → Streaming → Type 0
  OrderedAt keys s =
      Ordered (map (fetch get) keys) s.emitter s.emitted (coming s.futures s.producer) s.cancelled

  coming-append :
      (fs : List Future) (key : String) (keys : List String)
      → coming (fs ++ pending key ∷ []) (acquiring keys) ≡ coming fs (sending key keys)
  coming-append [] key keys = refl
  coming-append (f ∷ fs) key keys = ap (λ l. future_item f ∷ l) (coming-append fs key keys)

  coming-left :
      (fs : List Future) (p q : Producer) → left_keys p ≡ left_keys q → coming fs p ≡ coming fs q
  coming-left [] p q h = ap (map (fetch get)) h
  coming-left (f ∷ fs) p q h = ap (λ l. future_item f ∷ l) (coming-left fs p q h)

  -- A producer that stops leaves out the keys that are left.
  coming-closed :
      (fs : List Future) (p : Producer)
      → coming fs closed ++ map (fetch get) (left_keys p) ≡ coming fs p
  coming-closed [] p = refl
  coming-closed (f ∷ fs) p = ap (λ l. future_item f ∷ l) (coming-closed fs p)

  coming-fill :
      (i : ℕ) (fs : List Future) (p : Producer)
      → IfSome (λ fs'. coming fs' p ≡ coming fs p) (fill get i fs)
  unfolding fill
  coming-fill i [] p = tt
  coming-fill zero (pending key ∷ fs) p = refl
  coming-fill zero (filled it ∷ fs) p = tt
  coming-fill (suc i) (f ∷ fs) p =
      IfSome-bind _ (fill get i fs) _
        (λ fs' e. ap (λ l. future_item f ∷ l) (IfSome-some _ _ fs' (coming-fill i fs p) e))

  module _ (keys : List String) where
    abbrev Keeps : Option Streaming → Type 0
    Keeps o = IfSome (OrderedAt keys) o

    -- What is to come stays the same.
    same_coming :
        (s : Streaming) (coming' : List Item)
        → OrderedAt keys s
        → coming' ≡ coming s.futures s.producer
        → Ordered (map (fetch get) keys) s.emitter s.emitted coming' s.cancelled
    unfolding OrderedAt
    same_coming s coming' o h =
        subst (λ l. Ordered (map (fetch get) keys) s.emitter s.emitted l s.cancelled) (sym h) o

    produce-Ordered :
        (depth : ℕ) (p : Producer) (s : Streaming)
        → p ≡ s.producer
        → OrderedAt keys s
        → Keeps (produce depth p s)
    unfolding produce OrderedAt
    produce-Ordered depth (acquiring []) s h o =
        same_coming s _ o (coming-left s.futures closed s.producer (ap left_keys h))
    produce-Ordered depth (acquiring (key ∷ rest)) s h o =
        IfSome-if (OrderedAt keys) (ltb s.tokens depth) _ (λ _.
          same_coming s _ o (coming-left s.futures (sending key rest) s.producer (ap left_keys h)))
    produce-Ordered depth (sending key rest) s h o =
        IfSome-if (OrderedAt keys) (ltb (in_channel s) depth) _
          (λ _. same_coming s _ o (coming-append s.futures key rest ∙ ap (coming s.futures) h))
    produce-Ordered depth closed s h o = tt

    -- The producer stops, and the items of the keys that are left are lost.
    stops :
        (s : Streaming)
        → s.cancelled ≡ true
        → OrderedAt keys s
        → Ordered (map (fetch get) keys) s.emitter s.emitted (coming s.futures closed) s.cancelled
    unfolding OrderedAt
    stops s h o =
        let gone = map (fetch get) (left_keys s.producer) in
        record {
          lost = to_come s.emitter gone ++ o.lost;
          yields =
              ap (λ l. s.emitted ++ (offered s.emitter ++ l))
                (sym (
                    append_assoc (to_come s.emitter (coming s.futures closed))
                      (to_come s.emitter gone) o.lost)
                  ∙ ap (λ l. l ++ o.lost)
                      (sym (to_come-append s.emitter (coming s.futures closed) gone)
                        ∙ ap (to_come s.emitter) (coming-closed s.futures s.producer)))
              ∙ o.yields;
          kept = λ c. cc;
        }

    quit_producing-Ordered :
        (p : Producer) (s : Streaming)
        → p ≡ s.producer
        → OrderedAt keys s
        → Keeps (quit_producing p s)
    unfolding quit_producing OrderedAt
    quit_producing-Ordered (acquiring []) s h o = tt
    quit_producing-Ordered (acquiring (key ∷ rest)) s h o =
        IfSome-if (OrderedAt keys) s.cancelled _ (λ c. stops s c o)
    quit_producing-Ordered (sending key rest) s h o =
        IfSome-if (OrderedAt keys) s.cancelled _ (λ c. stops s c o)
    quit_producing-Ordered closed s h o = tt

    -- What the emitter gives up is lost.
    quit_emitting-Ordered :
        (e : Emitter) (s : Streaming) → e ≡ s.emitter → OrderedAt keys s → Keeps (quit_emitting e s)
    unfolding quit_emitting OrderedAt
    quit_emitting-Ordered receiving s h o = tt
    quit_emitting-Ordered awaiting s h o = IfSome-if (OrderedAt keys) s.cancelled _ (λ c. record {
      lost = coming s.futures s.producer ++ o.lost;
      yields =
          ap (λ e. s.emitted ++ (offered e ++ (to_come e (coming s.futures s.producer) ++ o.lost)))
            h
          ∙ o.yields;
      kept = λ k. cc;
    })
    quit_emitting-Ordered (offering it) s h o = IfSome-if (OrderedAt keys) s.cancelled _ (λ c.
        record {
          lost = it ∷ (coming s.futures s.producer ++ o.lost);
          yields =
              ap
                (λ e.
                  s.emitted ++ (offered e ++ (to_come e (coming s.futures s.producer) ++ o.lost)))
                h
              ∙ o.yields;
          kept = λ k. cc;
        })
    quit_emitting-Ordered ended s h o = tt
    quit_emitting-Ordered gave_up s h o = tt

    receive_none-Ordered :
        (p : Producer) (s : Streaming)
        → p ≡ s.producer
        → receiving ≡ s.emitter
        → [] ≡ s.futures
        → OrderedAt keys s
        → Keeps (receive_none p s)
    unfolding receive_none OrderedAt
    receive_none-Ordered closed s h g n o = record {
      lost = o.lost;
      yields =
          (λ i. s.emitted ++ (offered (g i) ++ (to_come (g i) (coming (n i) (h i)) ++ o.lost)))
          ∙ o.yields;
      kept = o.kept;
    }
    receive_none-Ordered (acquiring rest) s h g n o = tt
    receive_none-Ordered (sending key rest) s h g n o = tt

    emit_next-Ordered :
        (e : Emitter) (fs : List Future) (s : Streaming)
        → e ≡ s.emitter
        → fs ≡ s.futures
        → OrderedAt keys s
        → Keeps (emit_next e fs s)
    unfolding emit_next OrderedAt
    emit_next-Ordered receiving [] s h g o = receive_none-Ordered s.producer s refl h g o
    emit_next-Ordered receiving (f ∷ fs) s h g o = record {
      lost = o.lost;
      yields =
          (λ i.
            s.emitted ++ (offered (h i) ++ (to_come (h i) (coming s.futures s.producer) ++ o.lost)))
          ∙ o.yields;
      kept = o.kept;
    }
    emit_next-Ordered awaiting [] s h g o = tt
    emit_next-Ordered awaiting (pending key ∷ fs) s h g o = tt
    emit_next-Ordered awaiting (filled it ∷ fs) s h g o = record {
      lost = o.lost;
      yields =
          (λ i. s.emitted ++ (offered (h i) ++ (to_come (h i) (coming (g i) s.producer) ++ o.lost)))
          ∙ o.yields;
      kept = o.kept;
    }
    emit_next-Ordered (offering it) fs s h g o = record {
      lost = o.lost;
      yields =
          append_assoc s.emitted (it ∷ []) (coming s.futures s.producer ++ o.lost)
          ∙ (λ i.
              s.emitted
              ++ (offered (h i) ++ (to_come (h i) (coming s.futures s.producer) ++ o.lost)))
          ∙ o.yields;
      kept = o.kept;
    }
    emit_next-Ordered ended fs s h g o = tt
    emit_next-Ordered gave_up fs s h g o = tt

    release_token-Ordered : (n : ℕ) (s : Streaming) → OrderedAt keys s → Keeps (release_token n s)
    unfolding release_token OrderedAt
    release_token-Ordered zero s o = tt
    release_token-Ordered (suc n) s o = o

    step-Ordered :
        (depth : ℕ) (e : Event) (s : Streaming) → OrderedAt keys s → Keeps (step get depth e s)
    unfolding step OrderedAt
    step-Ordered depth produces s o = produce-Ordered depth s.producer s refl o
    step-Ordered depth quits_producing s o = quit_producing-Ordered s.producer s refl o
    step-Ordered depth emits s o = emit_next-Ordered s.emitter s.futures s refl refl o
    step-Ordered depth quits_emitting s o = quit_emitting-Ordered s.emitter s refl o
    step-Ordered depth (fills i) s o =
        IfSome-bind (OrderedAt keys) (fill get i s.futures) _
          (λ fs e. same_coming s _ o (IfSome-some _ _ fs (coming-fill i s.futures s.producer) e))
    step-Ordered depth releases s o = release_token-Ordered s.returning s o

    pub Run-OrderedAt :
        {p : Prefetcher} {n : ℕ} {s : Streaming} → Run get p keys n s → OrderedAt keys s
    unfolding OrderedAt new_stream
    Run-OrderedAt starts = record { lost = []; yields = append-nil _; kept = λ _. refl }
    Run-OrderedAt {p} (moves {s} {s'} e h run) =
        IfSome-some (OrderedAt keys) _ s' (step-Ordered p.depth e s (Run-OrderedAt run)) h
    Run-OrderedAt (cancels run) =
        let o = Run-OrderedAt run in record { lost = o.lost; yields = o.yields; kept = λ c. cc }

    -- Nothing is lost before the context is cancelled.
    pub Run-kept :
        {p : Prefetcher} {n : ℕ} {s : Streaming}
        → Run get p keys n s
        → s.cancelled ≡ false
        → s.emitted ++ (offered s.emitter ++ to_come s.emitter (coming s.futures s.producer))
          ≡ map (fetch get) keys
    unfolding OrderedAt
    Run-kept {s} run c =
        let o = Run-OrderedAt run in
        ap (λ l. s.emitted ++ (offered s.emitter ++ l))
          (sym (append-nil _)
            ∙ ap (λ l. to_come s.emitter (coming s.futures s.producer) ++ l) (sym (o.kept c)))
        ∙ o.yields

    -- However the goroutines of a Stream take turns, and whenever the context is cancelled: the items
    -- that the consumer has are those of the first keys, in their order.
    pub Run-emitted :
        {p : Prefetcher} {n : ℕ} {s : Streaming}
        → Run get p keys n s
        → (rest : List Item) × (s.emitted ++ rest ≡ map (fetch get) keys)
    unfolding OrderedAt
    Run-emitted run = let o = Run-OrderedAt run in (_, o.yields)
