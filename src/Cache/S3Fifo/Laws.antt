-- ===== src/Cache/S3Fifo/Laws.antt =====
-- The laws of the cache's policies for S3-FIFO.
use distributed_image_proces.Prelude.{
  subst, suc, ◌<◌, String, ◌≡◌, refl, sym, ◌∙◌, inl, inr, ite, if_pos, if_neg, true, false, arith,
  if◌then◌else◌, Bool-cases, string_discrete,
}
use distributed_image_proces.Cache.Policy.{PolicyLaws, Reclaimed}
use distributed_image_proces.Cache.S3Fifo.{
  S3Fifo, resident, len, access, raise_cap, enter, add, victim, remove, s3fifo,
}
use distributed_image_proces.Cache.S3Fifo.Queues.{
  Ok, touch-has, length-touch, access-Ok, raise_cap-Ok, enter-Entered,
}
use distributed_image_proces.Cache.S3Fifo.Sweep.{victim-Names, Names}

pub access-resident : (k id : String) (p : S3Fifo) → resident k (access id p) ≡ resident k p
unfolding resident access
access-resident k id p = rw (touch-has k id p.small, touch-has k id p.main) refl

pub access-len : (id : String) (p : S3Fifo) → len (access id p) ≡ len p
unfolding len access
access-len id p = rw (length-touch id p.small, length-touch id p.main) refl

raise_cap-resident : (k : String) (p : S3Fifo) → resident k (raise_cap p) ≡ resident k p
unfolding raise_cap resident
raise_cap-resident k p = ground arith

raise_cap-len : (p : S3Fifo) → len (raise_cap p) ≡ len p
unfolding raise_cap len
raise_cap-len p = ground arith

pub add-Ok : (id : String) (p : S3Fifo) → Ok p → Ok (add id p)
unfolding add
add-Ok id p o = elim (Bool-cases (resident id p)) [
  | inl e ↦ rw (add, e) (access-Ok id p o)
  | inr e ↦ rw (add, e) (raise_cap-Ok (enter id p) (enter-Entered id p o e).ok)
]

pub add-resident :
    (k id : String) (p : S3Fifo)
    → Ok p
    → resident k (add id p) ≡ ite (string_discrete k id) true (resident k p)
unfolding add
add-resident k id p o = elim (Bool-cases (resident id p)) [
  | inl e ↦
      rw (add, e)
        (elim (string_discrete k id) [
          | yes same ↦
              access-resident k id p
              ∙ subst (λ x. resident x p ≡ true) (sym same) e
              ∙ rw (if_pos _ same) refl
          | no differ ↦ access-resident k id p ∙ rw (if_neg _ differ) refl
        ])
  | inr e ↦ rw (add, e) (raise_cap-resident k (enter id p) ∙ (enter-Entered id p o e).residents k)
]

pub add-len :
    (id : String) (p : S3Fifo)
    → Ok p
    → len (add id p) ≡ (if resident id p then len p else suc (len p))
unfolding add
add-len id p o = elim (Bool-cases (resident id p)) [
  | inl e ↦ rw (add, e) (access-len id p)
  | inr e ↦ rw (add, e) (raise_cap-len (enter id p) ∙ (enter-Entered id p o e).one_more)
]

-- A Remove of an id that has gone changes nothing.
pub remove_absent : (id : String) (p : S3Fifo) → resident id p ≡ false → remove id p ≡ p
unfolding remove resident
remove_absent id p h = ground arith

-- S3-FIFO with no id in two places: Victim of a cache that is not empty followed by Remove of the id
-- that it names takes this id, and no other, off the queues, and leaves such queues.
pub s3fifo-Reclaimed : (p : S3Fifo) → Ok p → 0 < len p → Reclaimed s3fifo Ok resident p
unfolding s3fifo
s3fifo-Reclaimed p o h =
    let n : Names p (victim p) = victim-Names p o h in
    let same : remove n.id n.left ≡ n.left =
      remove_absent n.id n.left (n.taken.gone n.id ∙ rw (if_pos _ refl) refl) in
    record {
      id = n.id;
      left = n.left;
      answer = n.answer;
      was = n.taken.was;
      ok = subst Ok (sym same) n.taken.ok;
      gone = λ k. rw same (n.taken.gone k);
      fewer = rw same n.taken.fewer;
    }

unfoldable pub s3fifo_laws : PolicyLaws s3fifo
unfolding s3fifo
s3fifo_laws = record {
  Ok = Ok;
  resident = resident;
  add_ok = add-Ok;
  add_resident = add-resident;
  add_len = add-len;
  access_ok = access-Ok;
  access_resident = λ k id p _. access-resident k id p;
  access_len = λ id p _. access-len id p;
  reclaim = s3fifo-Reclaimed;
}
