-- ===== src/Cache/Clock/Laws.antt =====
-- The laws of the cache's policies for clockPolicy.
use distributed_image_proces.Prelude.{
  has, length-delete, subst, suc, ◌<◌, String, ◌≡◌, refl, sym, ◌∙◌, inl, inr, ite, if_pos, if_neg,
  Bool, true, Option, none, some, arith, if◌then◌else◌, Bool-cases, string_discrete, length, insert,
  delete, lookup-insert, lookup-delete, length-insert, Distinct, insert-Distinct, delete-Distinct,
}
use distributed_image_proces.Cache.Policy.{PolicyLaws, Reclaimed}
use distributed_image_proces.Cache.Clock.{
  Ring, ClockPolicy, advance, add, access, victim, step_off, remove, clock_policy,
}
use distributed_image_proces.Cache.Clock.Sweep.{OnRing, advance-has, Swept, victim-Swept}

pub record Ok (p : ClockPolicy) : Type 0 where
  pub once : Distinct p.ring
  pub on_ring : OnRing p.hand p.ring

unfoldable pub resident : String → ClockPolicy → Bool
resident id p = has id p.ring

-- A hand stays on a ring that only gains ids.
OnRing-mono :
    (h : Option String) (m m' : Ring)
    → ((k : String) → has k m ≡ true → has k m' ≡ true)
    → OnRing h m
    → OnRing h m'
OnRing-mono none m m' f o = tt
OnRing-mono (some h) m m' f o = f h o

insert-has :
    (k id : String) (m : Ring)
    → has k (insert id true m) ≡ ite (string_discrete k id) true (has k m)
insert-has k id m = ground (arith, lookup-insert k id true m)

pub add-Ok : (id : String) (p : ClockPolicy) → Ok p → Ok (add id p)
unfolding add
add-Ok id p o = record {
  once = insert-Distinct id true p.ring o.once;
  on_ring =
      OnRing-mono p.hand p.ring (insert id true p.ring)
        (λ k h. ground (arith, insert-has k id p.ring, h)) o.on_ring;
}

pub add-resident :
    (k id : String) (p : ClockPolicy)
    → Ok p
    → resident k (add id p) ≡ ite (string_discrete k id) true (resident k p)
unfolding add resident
add-resident k id p o = insert-has k id p.ring

pub add-length :
    (id : String) (p : ClockPolicy)
    → Ok p
    → length (add id p).ring ≡ (if resident id p then length p.ring else suc (length p.ring))
unfolding add resident
add-length id p o = ground (arith, length-insert id true p.ring)

pub access-Ok : (id : String) (p : ClockPolicy) → Ok p → Ok (access id p)
unfolding access add
access-Ok id p o = elim (Bool-cases (has id p.ring)) [
  | inl e ↦ rw (access, e) (add-Ok id p o)
  | inr e ↦ rw (access, e) o
]

pub access-resident :
    (k id : String) (p : ClockPolicy) → Ok p → resident k (access id p) ≡ resident k p
unfolding access resident
access-resident k id p o = ground (arith, insert-has k id p.ring)

pub access-length :
    (id : String) (p : ClockPolicy) → Ok p → length (access id p).ring ≡ length p.ring
unfolding access
access-length id p o = ground (arith, length-insert id true p.ring)

-- The victim is under the hand, so Remove takes it off the ring and steps the hand off it.
remove-OnRing :
    (id : String) (p : ClockPolicy)
    → p.hand ≡ some id
    → has id p.ring ≡ true
    → OnRing (step_off id p) (delete id p.ring)
unfolding step_off
remove-OnRing id p at h = elim (string_discrete (advance id p.ring) id) [
  | yes e ↦ rw (step_off, at, if_pos _ refl, if_pos _ e) tt
  | no n ↦
      rw (step_off, at, if_pos _ refl, if_neg _ n)
        (ground (arith, lookup-delete (advance id p.ring) id p.ring, advance-has id p.ring h, n))
]

delete-length :
    (id : String) (m : Ring) → Distinct m → has id m ≡ true → suc (length (delete id m)) ≡ length m
delete-length id m d h = ground (arith, length-delete id m d, h)

-- CLOCK with the hand on the ring and no id twice: Victim of a ring that is not empty followed by
-- Remove of the id that it names takes this id, and no other, off the ring, and leaves such a ring.
pub clock-Reclaimed :
    (p : ClockPolicy) → Ok p → 0 < length p.ring → Reclaimed clock_policy Ok resident p
unfolding clock_policy resident
clock-Reclaimed p o h =
    let s : Swept p.ring (victim p) = victim-Swept p o.on_ring o.once h in
    let there : has s.id s.left.ring ≡ true = s.same s.id ∙ s.was in
    let q : ClockPolicy = record { ring = delete s.id s.left.ring; hand = step_off s.id s.left } in
    let removed : remove s.id s.left ≡ q = rw (remove, there) refl in
    record {
      id = s.id;
      left = s.left;
      answer = s.answer;
      was = s.was;
      ok = subst Ok (sym removed) (record {
        once = delete-Distinct s.id s.left.ring s.once;
        on_ring = remove-OnRing s.id s.left s.at there;
      });
      gone = λ k. rw removed (ground (arith, lookup-delete k s.id s.left.ring, s.same k));
      fewer = rw removed (delete-length s.id s.left.ring s.once there ∙ s.as_many);
    }

unfoldable pub clock_laws : PolicyLaws clock_policy
unfolding clock_policy
clock_laws = record {
  Ok = Ok;
  resident = resident;
  add_ok = add-Ok;
  add_resident = add-resident;
  add_len = add-length;
  access_ok = access-Ok;
  access_resident = access-resident;
  access_len = access-length;
  reclaim = clock-Reclaimed;
}
