-- ===== src/Cache/Lru/Laws.antt =====
-- The laws of the cache's policies for lruPolicy.
use distributed_image_proces.Prelude.{
  ◌≢◌, subst, suc, ◌<◌, String, ◌≡◌, refl, sym, ◌∙◌, inl, inr, ite, if_pos, true, some, List, [],
  ◌∷◌, arith, if◌then◌else◌, Bool-cases, string_discrete, length, false, if_neg,
}
use distributed_image_proces.Cache.Policy.{PolicyLaws, Reclaimed}
use distributed_image_proces.Cache.Ids.{
  contains, without, Once, contains-without, without-Once, length-without_present, without_absent,
}
use distributed_image_proces.Cache.Lru.{
  LruPolicy, move_to_front, add, access, back, victim, remove, lru_policy,
}

back-contains :
    (x : String) (xs : List String)
    → (id : String) × (back (x ∷ xs) ≡ some id) × (contains id (x ∷ xs) ≡ true)
unfolding back contains
back-contains x [] = (x, refl, ground arith)
back-contains x (y ∷ ys) =
    let (id, named, there) = back-contains y ys in (id, named, ground (arith, there))

-- A touch of an id that is there.
pub record Touched (id : String) (p p' : LruPolicy) : Type 0 where
  pub once : Once p'
  pub same : (k : String) → contains k p' ≡ contains k p
  pub as_many : length p' ≡ length p

move_to_front-Touched :
    (id : String) (p : LruPolicy)
    → Once p
    → contains id p ≡ true
    → Touched id p (move_to_front id p)
unfolding move_to_front contains
move_to_front-Touched id p o h = record {
  once = (contains-without id id p o ∙ rw (if_pos _ refl) refl, without-Once id p o);
  same = λ k. elim (string_discrete k id) [
    | yes e ↦ ground (arith, h, e)
    | no n ↦ ground (arith, contains-without k id p o, n)
  ];
  as_many = length-without_present id p h;
}

Touched-refl : (id : String) (p : LruPolicy) → Once p → Touched id p p
Touched-refl id p o = record { once = o; same = λ k. refl; as_many = refl }

pub access-Touched : (id : String) (p : LruPolicy) → Once p → Touched id p (access id p)
unfolding access
access-Touched id p o = elim (Bool-cases (contains id p)) [
  | inl e ↦ rw (access, e) (move_to_front-Touched id p o e)
  | inr e ↦ rw (access, e) (Touched-refl id p o)
]

pub add-Once : (id : String) (p : LruPolicy) → Once p → Once (add id p)
unfolding add
add-Once id p o = elim (Bool-cases (contains id p)) [
  | inl e ↦ rw (add, e) ((move_to_front-Touched id p o e).once)
  | inr e ↦ rw (add, e) (e, o)
]

pub add-contains :
    (k id : String) (p : LruPolicy)
    → Once p
    → contains k (add id p) ≡ ite (string_discrete k id) true (contains k p)
unfolding add contains
add-contains k id p o = elim (Bool-cases (contains id p)) [
  | inl e ↦ rw (add, e) (ground (arith, (move_to_front-Touched id p o e).same k, e))
  | inr e ↦ rw (add, e) refl
]

pub add-length :
    (id : String) (p : LruPolicy)
    → Once p
    → length (add id p) ≡ (if contains id p then length p else suc (length p))
unfolding add
add-length id p o = elim (Bool-cases (contains id p)) [
  | inl e ↦ rw (add, e) ((move_to_front-Touched id p o e).as_many)
  | inr e ↦ rw (add, e) refl
]

pub lru-Reclaimed : (p : LruPolicy) → Once p → 0 < length p → Reclaimed lru_policy Once contains p
unfolding lru_policy victim
lru-Reclaimed [] o h = absurd (omega arith)
lru-Reclaimed (x ∷ xs) o h =
    let (id, named, there) = back-contains x xs in
    let same : remove id (x ∷ xs) ≡ without id (x ∷ xs) = rw (remove, there) refl in
    record {
      id = id;
      left = x ∷ xs;
      answer = rw named refl;
      was = there;
      ok = subst Once (sym same) (without-Once id (x ∷ xs) o);
      gone = λ k. rw same (contains-without k id (x ∷ xs) o);
      fewer = rw same (length-without_present id (x ∷ xs) there);
    }

unfoldable pub lru_laws : PolicyLaws lru_policy
unfolding lru_policy
lru_laws = record {
  Ok = Once;
  resident = contains;
  add_ok = add-Once;
  add_resident = add-contains;
  add_len = add-length;
  access_ok = λ id p o. (access-Touched id p o).once;
  access_resident = λ k id p o. (access-Touched id p o).same k;
  access_len = λ id p o. (access-Touched id p o).as_many;
  reclaim = lru-Reclaimed;
}

front_victim :
    (id : String) (q : List String)
    → contains id q ≡ false
    → 0 < length q
    → (j : String) × (back (id ∷ q) ≡ some j) × (contains j q ≡ true) × (j ≢ id)
unfolding back contains
front_victim id [] absent h = absurd (omega arith)
front_victim id (y ∷ ys) absent h =
    let (j, named, there) = back-contains y ys in
    (
      j,
      named,
      there,
      λ same. absurd (ground (arith, subst (λ k. contains k (y ∷ ys) ≡ true) same there, absent)),
    )

add-front : (id : String) (p : LruPolicy) → add id p ≡ id ∷ without id p
unfolding add move_to_front
add-front id p = elim (Bool-cases (contains id p)) [
  | inl e ↦ rw (add, e) refl
  | inr e ↦ rw (add, e, without_absent id p e) refl
]

-- Under LRU, with no id twice, an id that was just added is not the next victim as long as another
-- one is resident: Victim names one that was resident before.
pub victim-add :
    (id : String) (p : LruPolicy)
    → Once p
    → 1 < length (add id p)
    → (j : String) × ((victim (add id p)).0 ≡ some j) × (contains j p ≡ true) × (j ≢ id)
unfolding victim
victim-add id p o h =
    let gone : contains id (without id p) ≡ false =
      contains-without id id p o ∙ rw (if_pos _ refl) refl in
    let (j, named, there, differs) =
      front_victim id (without id p) gone (ground (arith, add-front id p)) in
    (
      j,
      rw (add-front id p) named,
      sym (contains-without j id p o ∙ rw (if_neg _ differs) refl) ∙ there,
      differs,
    )
