-- ===== src/Cache/S3Fifo/Sweep.antt =====
-- The turns of Victim's loop, and the work that bounds their number.
use distributed_image_proces.Prelude.{
  subst, ℕ, zero, suc, ◌-◌, ◌<◌, String, ◌≡◌, refl, sym, ◌∙◌, inl, inr, ite, true, false, Option,
  none, some, [], ◌∷◌, ◌++◌, arith, ltb, leb, ◌==◌, Bool-cases, string_discrete, length, lookup,
  Distinct,
}
use distributed_image_proces.Cache.Ids.{contains}
use distributed_image_proces.Cache.S3Fifo.{
  Queue, S3Fifo, push_back, resident, len, push_ghost, Turn, evicted, moved, stuck, evict_small,
  evict_main, target, turn, reclaim, work, victim,
}
use distributed_image_proces.Cache.S3Fifo.Queues.{
  Ok, push_back-has, push_back-Distinct, length-push_back, sum_map-push_back, length-trim,
}

-- One id has gone.
pub record Taken (p : S3Fifo) (id : String) (p' : S3Fifo) : Type 0 where
  pub ok : Ok p'
  pub was : resident id p ≡ true
  pub gone : (k : String) → resident k p' ≡ ite (string_discrete k id) false (resident k p)
  pub fewer : suc (len p') ≡ len p

-- A promotion or a decay: the same residents, and less work.
pub record Moved (p p' : S3Fifo) : Type 0 where
  pub ok : Ok p'
  pub same : (k : String) → resident k p' ≡ resident k p
  pub as_many : len p' ≡ len p
  pub less : suc (work p') ≡ work p

-- A turn that is not stuck.
pub data Turned (p : S3Fifo) : Turn → Type 0 where
  takes : (id : String) (p' : S3Fifo) → Taken p id p' → Turned p (evicted id p')
  moves : (p' : S3Fifo) → Moved p p' → Turned p (moved p')

push_ghost-Taken :
    (p : S3Fifo) (id : String) (p' : S3Fifo) → Taken p id p' → Taken p id (push_ghost id p')
unfolding push_ghost resident len
push_ghost-Taken p id p' t = elim (Bool-cases (contains id p'.ghost)) [
  | inl e ↦ rw (push_ghost, e) t
  | inr e ↦
      rw (push_ghost, e)
        (record {
          ok = record {
            small_once = t.ok.small_once;
            main_once = t.ok.main_once;
            apart = t.ok.apart;
            bounded = length-trim p'.ghost_cap (p'.ghost ++ id ∷ []);
          };
          was = t.was;
          gone = t.gone;
          fewer = t.fewer;
        })
]

-- The heads of the two queues, taken off or moved.
module _ (p : S3Fifo) (o : Ok p) (id : String) (freq : ℕ) (q : Queue) where
  small_head-Taken : p.small ≡ (id, freq) ∷ q → Taken p id (record p { small = q })
  unfolding resident len lookup
  small_head-Taken e =
      let d : Distinct ((id, freq) ∷ q) = subst Distinct e o.small_once in
      record {
        ok = record {
          small_once = d.1;
          main_once = o.main_once;
          apart = λ k. ground (arith, o.apart k, e, d.0);
          bounded = o.bounded;
        };
        was = ground (arith, e);
        gone = λ k. ground (arith, o.apart k, e, d.0);
        fewer = ground (arith, e);
      }

  main_head-Taken : p.main ≡ (id, freq) ∷ q → Taken p id (record p { main = q })
  unfolding resident len lookup
  main_head-Taken e =
      let d : Distinct ((id, freq) ∷ q) = subst Distinct e o.main_once in
      record {
        ok = record {
          small_once = o.small_once;
          main_once = d.1;
          apart = λ k. ground (arith, o.apart k, e, d.0);
          bounded = o.bounded;
        };
        was = ground (arith, e);
        gone = λ k. ground (arith, o.apart k, e, d.0);
        fewer = ground (arith, e);
      }

  promote-Moved :
      p.small ≡ (id, freq) ∷ q → Moved p (record p { small = q; main = push_back id freq p.main })
  unfolding resident len lookup work
  promote-Moved e =
      let d : Distinct ((id, freq) ∷ q) = subst Distinct e o.small_once in
      let free : lookup id p.main ≡ none = ground (arith, o.apart id, e) in
      record {
        ok = record {
          small_once = d.1;
          main_once = push_back-Distinct id freq p.main free o.main_once;
          apart = λ k. ground (arith, o.apart k, e, d.0, push_back-has k id freq p.main free);
          bounded = o.bounded;
        };
        same = λ k. ground (arith, e, d.0, push_back-has k id freq p.main free);
        as_many = ground (arith, e, length-push_back id freq p.main);
        less = ground (arith, e, sum_map-push_back id freq p.main);
      }

  decay-Moved :
      p.main ≡ (id, freq) ∷ q → 0 < freq → Moved p (record p { main = push_back id (freq - 1) q })
  unfolding resident len lookup work
  decay-Moved e h =
      let d : Distinct ((id, freq) ∷ q) = subst Distinct e o.main_once in
      record {
        ok = record {
          small_once = o.small_once;
          main_once = push_back-Distinct id (freq - 1) q d.0 d.1;
          apart = λ k. ground (arith, o.apart k, e, push_back-has k id (freq - 1) q d.0);
          bounded = o.bounded;
        };
        same = λ k. ground (arith, e, push_back-has k id (freq - 1) q d.0);
        as_many = ground (arith, e, length-push_back id (freq - 1) q);
        less = ground (arith, e, sum_map-push_back id (freq - 1) q);
      }

evict_small-Turned :
    (p : S3Fifo) (s : Queue) → Ok p → p.small ≡ s → 0 < length s → Turned p (evict_small s p)
unfolding evict_small
evict_small-Turned p [] o e h = absurd (omega arith)
evict_small-Turned p ((id, freq) ∷ q) o e h = elim (Bool-cases (ltb 0 freq)) [
  | inl g ↦ rw (evict_small, g) (moves _ (promote-Moved p o id freq q e))
  | inr g ↦
      rw (evict_small, g) (takes id _ (push_ghost-Taken p id _ (small_head-Taken p o id freq q e)))
]

evict_main-Turned :
    (p : S3Fifo) (m : Queue) → Ok p → p.main ≡ m → 0 < length m → Turned p (evict_main m p)
unfolding evict_main
evict_main-Turned p [] o e h = absurd (omega arith)
evict_main-Turned p ((id, freq) ∷ q) o e h = elim (Bool-cases (ltb 0 freq)) [
  | inl g ↦ rw (evict_main, g) (moves _ (decay-Moved p o id freq q e (ground arith)))
  | inr g ↦ rw (evict_main, g) (takes id _ (main_head-Taken p o id freq q e))
]

turn-Turned : (p : S3Fifo) → Ok p → 0 < len p → Turned p (turn p)
unfolding turn len target
turn-Turned p o h = elim (Bool-cases (leb (target p) (length p.small))) [
  | inl e ↦ rw (turn, e) (evict_small-Turned p p.small o refl (ground arith))
  | inr e ↦ elim (Bool-cases (ltb 0 (length p.main))) [
    | inl g ↦ rw (turn, e, g) (evict_main-Turned p p.main o refl (ground arith))
    | inr g ↦ elim (Bool-cases (ltb 0 (length p.small))) [
      | inl f ↦ rw (turn, e, g, f) (evict_small-Turned p p.small o refl (ground arith))
      | inr f ↦ absurd (ground arith)
    ]
  ]
]

-- What Victim answers.
pub record Names (p : S3Fifo) (r : Option String × S3Fifo) : Type 0 where
  pub id : String
  pub left : S3Fifo
  pub answer : r ≡ (some id, left)
  pub taken : Taken p id left

Moved-Names : (p p' : S3Fifo) (r : Option String × S3Fifo) → Moved p p' → Names p' r → Names p r
Moved-Names p p' r m n = record {
  id = n.id;
  left = n.left;
  answer = n.answer;
  taken = record {
    ok = n.taken.ok;
    was = sym (m.same n.id) ∙ n.taken.was;
    gone = λ k. n.taken.gone k ∙ rw (m.same k) refl;
    fewer = n.taken.fewer ∙ m.as_many;
  };
}

-- The loop's result after a turn, given the result of what follows a move.
Turned-Names :
    (fuel : ℕ) (p : S3Fifo) (t : Turn)
    → Turned p t
    → ((p' : S3Fifo) → Moved p p' → Names p' (reclaim fuel p'))
    → Names p (elim t [
      | evicted id p' ↦ (some id, p')
      | moved p' ↦ reclaim fuel p'
      | stuck p' ↦ (none, p')
    ])
Turned-Names fuel p t (takes id p' k) next = record { id = id; left = p'; answer = refl; taken = k }
Turned-Names fuel p t (moves p' m) next = Moved-Names p p' (reclaim fuel p') m (next p' m)

reclaim-Names :
    (fuel : ℕ) (p : S3Fifo) → Ok p → 0 < len p → work p < fuel → Names p (reclaim fuel p)
unfolding reclaim
reclaim-Names zero p o h w = absurd (omega arith)
reclaim-Names (suc fuel) p o h w =
    Turned-Names fuel p (turn p) (turn-Turned p o h)
      (λ p' m. reclaim-Names fuel p' m.ok (omega (arith, m.as_many)) (omega (arith, m.less)))

-- With no id in two places, Victim of a cache that is not empty names a resident and takes it,
-- and it alone, from the residents.
pub victim-Names : (p : S3Fifo) → Ok p → 0 < len p → Names p (victim p)
unfolding victim
victim-Names p o h = elim (Bool-cases (len p == 0)) [
  | inl e ↦ absurd (ground arith)
  | inr e ↦ rw (victim, e) (reclaim-Names (suc (work p)) p o h (omega arith))
]
