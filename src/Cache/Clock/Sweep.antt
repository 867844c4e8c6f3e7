-- ===== src/Cache/Clock/Sweep.antt =====
-- The sweep of CLOCK's hand.
use distributed_image_proces.Prelude.{
  has, ℕ, zero, suc, ◌<◌, String, ◌≡◌, refl, sym, ◌∙◌, inl, inr, if_pos, if_neg, Bool, true, false,
  Option, none, some, [], ◌∷◌, arith, if◌then◌else◌, Bool-cases, string_discrete, length, lookup,
  insert, lookup_or, lookup-insert, length-insert, sum_map-insert, Distinct, insert-Distinct,
}
use distributed_image_proces.Cache.Clock.{
  Ring, ClockPolicy, next_or, advance, sweep, set_bits, sweep_from, victim,
}

-- The hand is nil or points to an element of the ring.
abbrev pub OnRing : Option String → Ring → Type 0
OnRing none m = Unit
OnRing (some h) m = has h m ≡ true

front-has : (j : String) (b : Bool) (m : Ring) → has j ((j, b) ∷ m) ≡ true
unfolding lookup
front-has j b m = ground arith

tail-has : (k j : String) (c : Bool) (m : Ring) → has k m ≡ true → has k ((j, c) ∷ m) ≡ true
unfolding lookup
tail-has k j c m h = ground arith

next_or-has :
    (front id : String) (m m' : Ring)
    → has front m' ≡ true
    → ((k : String) → has k m ≡ true → has k m' ≡ true)
    → has (next_or front id m) m' ≡ true
unfolding next_or
next_or-has front id [] m' h sub = h
next_or-has front id ((j, _) ∷ []) m' h sub = h
next_or-has front id ((j, c) ∷ (i, b) ∷ m) m' h sub = elim (string_discrete id j) [
  | yes e ↦ rw (if_pos _ e) (sub i (tail-has i j c ((i, b) ∷ m) (front-has i b m)))
  | no n ↦
      rw (if_neg _ n)
        (next_or-has front id ((i, b) ∷ m) m' h (λ k g. sub k (tail-has k j c ((i, b) ∷ m) g)))
]

pub advance-has : (id : String) (m : Ring) → has id m ≡ true → has (advance id m) m ≡ true
unfolding advance lookup
advance-has id [] h = h
advance-has id ((j, b) ∷ m) h = next_or-has j id ((j, b) ∷ m) ((j, b) ∷ m) (ground arith) (λ k g. g)

-- What the sweep leaves: the same ids, the hand on the victim.
pub record Swept (m : Ring) (r : Option String × ClockPolicy) : Type 0 where
  pub id : String
  pub left : ClockPolicy
  pub answer : r ≡ (some id, left)
  pub was : has id m ≡ true
  pub at : left.hand ≡ some id
  pub same : (k : String) → has k left.ring ≡ has k m
  pub once : Distinct left.ring
  pub as_many : length left.ring ≡ length m

clear-has : (k id : String) (m : Ring) → has id m ≡ true → has k (insert id false m) ≡ has k m
clear-has k id m h = ground (arith, lookup-insert k id false m, h)

clear-length : (id : String) (m : Ring) → has id m ≡ true → length (insert id false m) ≡ length m
clear-length id m h = ground (arith, length-insert id false m, h)

clear-set_bits :
    (id : String) (m : Ring)
    → lookup_or id false m ≡ true
    → suc (set_bits (insert id false m)) ≡ set_bits m
unfolding set_bits
clear-set_bits id m h = ground (arith, sum_map-insert (λ b. if b then 1 else 0) id false m, h)

sweep-Swept :
    (fuel : ℕ) (id : String) (m : Ring)
    → set_bits m < fuel
    → has id m ≡ true
    → Distinct m
    → Swept m (sweep fuel id m)
unfolding sweep
sweep-Swept zero id m w h d = absurd (omega arith)
sweep-Swept (suc fuel) id m w h d = elim (Bool-cases (lookup_or id false m)) [
  | inl e ↦
      let there : has (advance id m) (insert id false m) ≡ true =
        rw (clear-has (advance id m) id m h) (advance-has id m h) in
      let s : Swept (insert id false m) (sweep fuel (advance id m) (insert id false m)) =
        sweep-Swept fuel (advance id m) (insert id false m) (omega (arith, clear-set_bits id m e))
          there (insert-Distinct id false m d) in
      record {
        id = s.id;
        left = s.left;
        answer = rw (sweep, e) s.answer;
        was = sym (clear-has s.id id m h) ∙ s.was;
        at = s.at;
        same = λ k. s.same k ∙ clear-has k id m h;
        once = s.once;
        as_many = s.as_many ∙ clear-length id m h;
      }
  | inr e ↦ record {
    id = id;
    left = record { ring = m; hand = some id };
    answer = rw (sweep, e) refl;
    was = h;
    at = refl;
    same = λ k. refl;
    once = d;
    as_many = refl;
  }
]

sweep_from-Swept :
    (h : Option String) (m : Ring)
    → OnRing h m
    → Distinct m
    → 0 < length m
    → Swept m (sweep_from h m)
unfolding sweep_from
sweep_from-Swept h [] on d n = absurd (omega arith)
sweep_from-Swept none ((j, b) ∷ m) on d n =
    sweep-Swept (suc (set_bits ((j, b) ∷ m))) j ((j, b) ∷ m) (omega arith) (front-has j b m) d
sweep_from-Swept (some id) ((j, b) ∷ m) on d n =
    sweep-Swept (suc (set_bits ((j, b) ∷ m))) id ((j, b) ∷ m) (omega arith) on d

-- With the hand on the ring and no id in it twice, Victim of a ring that is not empty names one of
-- its ids, and keeps the ids of the ring.
pub victim-Swept :
    (p : ClockPolicy)
    → OnRing p.hand p.ring
    → Distinct p.ring
    → 0 < length p.ring
    → Swept p.ring (victim p)
unfolding victim
victim-Swept p on d n = sweep_from-Swept p.hand p.ring on d n
