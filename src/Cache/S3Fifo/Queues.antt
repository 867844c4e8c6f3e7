-- ===== src/Cache/S3Fifo/Queues.antt =====
-- The two queues of S3-FIFO and the ghost queue.
use distributed_image_proces.Prelude.{
  has, ℕ, suc, ◌+◌, ◌≤◌, String, ◌≡◌, refl, inl, inr, ite, true, false, ◌&&◌, none, List, [], ◌∷◌,
  arith, ltb, Bool-cases, Option-cases, string_discrete, length, length-append, lookup, insert,
  lookup-insert, length-insert, sum_map, Distinct, insert-Distinct,
}
use distributed_image_proces.Cache.Ids.{contains, length-without}
use distributed_image_proces.Cache.S3Fifo.{
  Queue, S3Fifo, push_back, bump, touch, resident, len, access, raise_cap, enter, trim,
}

-- No id is in both queues or twice in one.
pub record Ok (p : S3Fifo) : Type 0 where
  pub small_once : Distinct p.small
  pub main_once : Distinct p.main
  pub apart : (k : String) → (has k p.small && has k p.main) ≡ false
  pub bounded : length p.ghost ≤ p.ghost_cap

-- A push of a new id is a write to a map that has not got it.
push_back-insert :
    (id : String) (freq : ℕ) (q : Queue)
    → lookup id q ≡ none
    → push_back id freq q ≡ insert id freq q
unfolding push_back insert lookup
push_back-insert id freq [] h = refl
push_back-insert id freq ((i, f) ∷ q) h = ground (arith, push_back-insert id freq q)

pub push_back-has :
    (k id : String) (freq : ℕ) (q : Queue)
    → lookup id q ≡ none
    → has k (push_back id freq q) ≡ ite (string_discrete k id) true (has k q)
push_back-has k id freq q h =
    ground (arith, push_back-insert id freq q h, lookup-insert k id freq q)

pub push_back-Distinct :
    (id : String) (freq : ℕ) (q : Queue)
    → lookup id q ≡ none
    → Distinct q
    → Distinct (push_back id freq q)
push_back-Distinct id freq q h d = rw (push_back-insert id freq q h) (insert-Distinct id freq q d)

pub length-push_back :
    (id : String) (freq : ℕ) (q : Queue) → length (push_back id freq q) ≡ suc (length q)
unfolding push_back
length-push_back id freq q = omega (arith, length-append q ((id, freq) ∷ []))

pub sum_map-push_back :
    (id : String) (freq : ℕ) (q : Queue)
    → sum_map (λ n. n) (push_back id freq q) ≡ sum_map (λ n. n) q + freq
unfolding push_back
sum_map-push_back id freq [] = omega arith
sum_map-push_back id freq ((i, f) ∷ q) = omega (arith, sum_map-push_back id freq q)

-- A touch changes no ids.
pub touch-has : (k id : String) (q : Queue) → has k (touch id q) ≡ has k q
unfolding touch lookup
touch-has k id q = elim (Option-cases (lookup id q)) [
  | inl e ↦ rw (touch, e) refl
  | inr (f, e) ↦ ground (arith, lookup-insert k id (bump f) q, e, touch)
]

pub touch-Distinct : (id : String) (q : Queue) → Distinct q → Distinct (touch id q)
unfolding touch
touch-Distinct id q d = elim (Option-cases (lookup id q)) [
  | inl e ↦ rw (touch, e) d
  | inr (f, e) ↦ rw (touch, e) (insert-Distinct id (bump f) q d)
]

pub length-touch : (id : String) (q : Queue) → length (touch id q) ≡ length q
unfolding touch
length-touch id q = elim (Option-cases (lookup id q)) [
  | inl e ↦ rw (touch, e) refl
  | inr (f, e) ↦ rw (touch, e) (ground (arith, length-insert id (bump f) q, e))
]

-- The ghost queue.
pub length-trim : (cap : ℕ) (g : List String) → length (trim cap g) ≤ cap
unfolding trim
length-trim cap [] = omega arith
length-trim cap (x ∷ xs) = ground (arith, length-trim cap xs)

pub access-Ok : (id : String) (p : S3Fifo) → Ok p → Ok (access id p)
unfolding access
access-Ok id p o = record {
  small_once = touch-Distinct id p.small o.small_once;
  main_once = touch-Distinct id p.main o.main_once;
  apart = λ k. rw (touch-has k id p.small, touch-has k id p.main) (o.apart k);
  bounded = o.bounded;
}

pub raise_cap-Ok : (p : S3Fifo) → Ok p → Ok (raise_cap p)
unfolding raise_cap
raise_cap-Ok p o = elim (Bool-cases (ltb p.ghost_cap (len p))) [
  | inl e ↦
      rw (raise_cap, e)
        (record {
          small_once = o.small_once;
          main_once = o.main_once;
          apart = o.apart;
          bounded = ground (arith, o.bounded);
        })
  | inr e ↦ rw (raise_cap, e) o
]

-- What an admission that is no touch does.
pub record Entered (id : String) (p p' : S3Fifo) : Type 0 where
  pub ok : Ok p'
  pub residents : (k : String) → resident k p' ≡ ite (string_discrete k id) true (resident k p)
  pub one_more : len p' ≡ suc (len p)

pub enter-Entered :
    (id : String) (p : S3Fifo) → Ok p → resident id p ≡ false → Entered id p (enter id p)
unfolding enter resident len
enter-Entered id p o new =
    let no_small : lookup id p.small ≡ none = ground arith in
    let no_main : lookup id p.main ≡ none = ground arith in
    elim (Bool-cases (contains id p.ghost)) [
      | inl e ↦
          rw (enter, e)
            (record {
              ok = record {
                small_once = o.small_once;
                main_once = push_back-Distinct id 0 p.main no_main o.main_once;
                apart = λ k. ground (arith, push_back-has k id 0 p.main no_main, o.apart k);
                bounded = omega (arith, length-without id p.ghost, o.bounded);
              };
              residents = λ k. ground (arith, push_back-has k id 0 p.main no_main);
              one_more = omega (arith, length-push_back id 0 p.main);
            })
      | inr e ↦
          rw (enter, e)
            (record {
              ok = record {
                small_once = push_back-Distinct id 0 p.small no_small o.small_once;
                main_once = o.main_once;
                apart = λ k. ground (arith, push_back-has k id 0 p.small no_small, o.apart k);
                bounded = o.bounded;
              };
              residents = λ k. ground (arith, push_back-has k id 0 p.small no_small);
              one_more = omega (arith, length-push_back id 0 p.small);
            })
    ]
