-- ===== src/Scheduler/Steal/Victim.antt =====
-- The victim of a steal.
use distributed_image_proces.Prelude.{
  ℕ, ◌≤◌, ◌<◌, ◌≡◌, refl, ◌∙◌, ◌⊎◌, inl, inr, String, true, none, some, List, [], ◌∷◌, lookup,
  lookup_tail, Distinct, Bool-cases, AllEntries, ltb, pos, pos_part, ◌&&◌, arith, false, is_neg,
  ◌+◌, ◌-◌, ◌/◌, subst,
}
use distributed_image_proces.Scheduler.Job.{Task, in_flight}
use distributed_image_proces.Scheduler.State.{Scheduler}
use distributed_image_proces.Scheduler.Steal.{
  stealable, tail_of, Best, no_victim, better, find_victim, split_victim, split_point, splittable,
  steal_from, steal,
}

-- A best candidate that the loop took from the map.
pub record Found (m : List (String × Task)) (best : Best) : Type 0 where
  pub key : String
  pub victim : Task
  pub chosen : best.victim ≡ some (key, victim)
  pub tail : best.tail ≡ tail_of victim
  pub present : lookup key m ≡ some victim
  pub can_steal : stealable victim ≡ true

Found-tail :
    (k : String) (t : Task) (m : List (String × Task)) (best : Best)
    → lookup k m ≡ none
    → Found m best
    → Found ((k, t) ∷ m) best
Found-tail k t m best h f = record {
  key = f.key;
  victim = f.victim;
  chosen = f.chosen;
  tail = f.tail;
  can_steal = f.can_steal;
  present = lookup_tail f.key k f.victim t m h f.present;
}

better-Found :
    (k : String) (t : Task) (m : List (String × Task)) (best : Best)
    → (better k t best ≡ best) ⊎ Found ((k, t) ∷ m) (better k t best)
unfolding better lookup
better-Found k t m best = elim (Bool-cases (stealable t && ltb best.tail (tail_of t))) [
  | inl e ↦ inr (record {
    key = k;
    victim = t;
    chosen = rw e;
    tail = rw e;
    present = ground arith;
    can_steal = ground arith;
  })
  | inr e ↦ inl (rw e)
]

find_victim-Found :
    (m : List (String × Task)) (best : Best)
    → Distinct m
    → (find_victim m best ≡ best) ⊎ Found m (find_victim m best)
unfolding find_victim
find_victim-Found [] best d = inl refl
find_victim-Found ((k, t) ∷ m) best d = elim (find_victim-Found m (better k t best) d.1) [
  | inl same ↦ elim (better-Found k t m best) [ inl e ↦ inl (same ∙ e) | inr f ↦ inr (rw same f) ]
  | inr f ↦ inr (Found-tail k t m _ d.0 f)
]

better-tail-le : (k : String) (t : Task) (best : Best) → best.tail ≤ (better k t best).tail
unfolding better
better-tail-le k t best = ground arith

better-tail_of :
    (k : String) (t : Task) (best : Best) → stealable t ≡ true → tail_of t ≤ (better k t best).tail
unfolding better
better-tail_of k t best h = ground arith

find_victim-tail-le :
    (m : List (String × Task)) (best : Best) → best.tail ≤ (find_victim m best).tail
unfolding find_victim
find_victim-tail-le [] best = omega arith
find_victim-tail-le ((k, t) ∷ m) best =
    omega (arith, better-tail-le k t best, find_victim-tail-le m (better k t best))

stealable_of :
    (t : Task) → in_flight t.status ≡ true → is_neg t.range_end ≡ false → stealable t ≡ true
unfolding stealable
stealable_of t h g = rw (h, g)

-- An in-flight task with a known end has a tail of at most `n` items.
pub TailAtMost : ℕ → Task → Type 0
TailAtMost n t =
    in_flight t.status ≡ true → is_neg t.range_end ≡ false → pos_part t.range_end - t.granted ≤ n

-- The loop's tail is at least that of every task that could be a victim.
pub find_victim-largest :
    (m : List (String × Task)) (best : Best)
    → AllEntries (λ _ t. TailAtMost (find_victim m best).tail t) m
unfolding find_victim TailAtMost tail_of
find_victim-largest [] best = tt
find_victim-largest ((k, t) ∷ m) best = (
  λ h g. omega (
    arith,
    better-tail_of k t best (stealable_of t h g),
    find_victim-tail-le m (better k t best),
  ),
  find_victim-largest m (better k t best),
)

-- Everything that a successful steal has done.
pub record Stolen (new_id : String) (s : Scheduler) (r : Task × Scheduler) : Type 0 where
  pub key : String
  pub victim : Task
  pub split : ℕ
  pub end : ℕ
  pub present : lookup key s.tasks ≡ some victim
  pub flying : in_flight victim.status ≡ true
  pub known : victim.range_end ≡ pos end
  pub past_granted : victim.granted < split
  pub before_end : split < end
  pub halved : split ≡ victim.granted + (end - victim.granted) / 2
  pub longest : AllEntries (λ _ t. TailAtMost (end - victim.granted) t) s.tasks
  pub result : r ≡ split_victim new_id key victim split s

stealable-in_flight : (t : Task) → stealable t ≡ true → in_flight t.status ≡ true
unfolding stealable
stealable-in_flight t h = ground arith

splittable_bounds :
    (v : Task)
    → stealable v ≡ true
    → splittable v (tail_of v) ≡ true
    → (e : ℕ) × (v.range_end ≡ pos e)
      × (tail_of v ≡ e - v.granted)
      × (v.granted < split_point v (tail_of v))
      × (split_point v (tail_of v) < e)
unfolding splittable stealable tail_of
splittable_bounds v h g = (pos_part v.range_end, ground arith, refl, ground arith, ground arith)

steal_from-Stolen :
    (new_id : String) (s : Scheduler) (best : Best) {r : Task × Scheduler}
    → Found s.tasks best
    → AllEntries (λ _ t. TailAtMost best.tail t) s.tasks
    → steal_from new_id best s ≡ some r
    → Stolen new_id s r
unfolding steal_from
steal_from-Stolen new_id s best {r} f largest h =
    let g : splittable f.victim (tail_of f.victim) ≡ true = ground arith in
    let (e, known, tail, past, before) = splittable_bounds f.victim f.can_steal g in
    record {
      key = f.key;
      victim = f.victim;
      split = split_point f.victim (tail_of f.victim);
      end = e;
      present = f.present;
      flying = stealable-in_flight f.victim f.can_steal;
      known = known;
      past_granted = past;
      before_end = before;
      halved = rw (split_point, tail) refl;
      longest = subst (λ n. AllEntries (λ _ t. TailAtMost n t) s.tasks) (f.tail ∙ tail) largest;
      result = ground arith;
    }

-- A successful steal takes an in-flight task of the map with a known end and the longest ungranted
-- tail, and splits it half-way along that tail, strictly between its grant and its end.
pub steal-Stolen :
    (new_id : String) (s : Scheduler) {r : Task × Scheduler}
    → Distinct s.tasks
    → steal new_id s ≡ some r
    → Stolen new_id s r
unfolding steal steal_from no_victim
steal-Stolen new_id s {r} d h = elim (find_victim-Found s.tasks no_victim d) [
  | inl e ↦ absurd (ground arith)
  | inr f ↦ steal_from-Stolen new_id s _ f (find_victim-largest s.tasks no_victim) h
]
