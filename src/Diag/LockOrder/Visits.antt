-- ===== src/Diag/LockOrder/Visits.antt =====
-- What one turn of the search does to the names seen and to the stack.
use distributed_image_proces.Prelude.{
  ℕ, suc, ◌+◌, ◌≤◌, String, ◌≡◌, ◌≢◌, refl, sym, ◌⊎◌, inl, inr, if_pos, if_neg, true, false, not,
  Option, none, some, List, [], ◌∷◌, arith, if◌then◌else◌, Bool-cases, subst, string_discrete,
  length, count_if,
}
use distributed_image_proces.Cache.Ids.{contains}
use distributed_image_proces.Diag.LockOrder.{add_member, visit}

-- How many places of a list are not seen.
abbrev pub unseen : List String → List String → ℕ
unseen seen all = count_if (λ t. not (contains t seen)) all

pub contains-add_member :
    (k x : String) (xs : List String) → contains k xs ≡ true → contains k (add_member x xs) ≡ true
unfolding contains
contains-add_member k x xs h = ground arith

pub add_member_self : (x : String) (xs : List String) → contains x (add_member x xs) ≡ true
unfolding contains
add_member_self x xs = ground arith

pub add_member-cases :
    (k x : String) (xs : List String)
    → contains k (add_member x xs) ≡ true
    → (k ≡ x) ⊎ (contains k xs ≡ true)
unfolding contains
add_member-cases k x xs h = ground arith

pub contains_cons :
    (k x : String) (xs : List String)
    → contains k (x ∷ xs) ≡ true
    → (k ≡ x) ⊎ (contains k xs ≡ true)
unfolding contains
contains_cons k x xs h = ground arith

pub contains_head : (x : String) (xs : List String) → contains x (x ∷ xs) ≡ true
unfolding contains
contains_head x xs = ground arith

pub contains_tail :
    (k x : String) (xs : List String) → contains k xs ≡ true → contains k (x ∷ xs) ≡ true
unfolding contains
contains_tail k x xs h = ground arith

-- To see one more name, which stands in the list, leaves fewer places.
unseen-le : (x : String) (seen all : List String) → unseen (x ∷ seen) all ≤ unseen seen all
unfolding contains
unseen-le x seen [] = omega arith
unseen-le x seen (t ∷ all) = ground (arith, unseen-le x seen all)

unseen-lt :
    (x : String) (seen all : List String)
    → contains x seen ≡ false
    → contains x all ≡ true
    → suc (unseen (x ∷ seen) all) ≤ unseen seen all
unfolding contains
unseen-lt x seen [] h g = cc
unseen-lt x seen (t ∷ all) h g = ground (arith, unseen-lt x seen all, unseen-le x seen all)

-- What a turn over the names `ns` has made of `seen` and `stack`.
pub record Visited (to : String) (ns seen stack seen' stack' : List String) : Type 0 where
  pub grows : (m : String) → contains m seen ≡ true → contains m seen' ≡ true
  pub keeps : (m : String) → contains m stack ≡ true → contains m stack' ≡ true
  pub fresh :
      (m : String) → contains m seen' ≡ true → (contains m seen ≡ true) ⊎ (contains m stack' ≡ true)
  pub sees_only :
      (m : String) → contains m seen' ≡ true → (contains m seen ≡ true) ⊎ (contains m ns ≡ true)
  pub covers : (m : String) → contains m ns ≡ true → contains m seen' ≡ true
  pub misses : contains to ns ≡ false
  pub only :
      (m : String) → contains m stack' ≡ true → (contains m stack ≡ true) ⊎ (contains m ns ≡ true)
  pub costs :
      (all : List String)
      → ((m : String) → contains m ns ≡ true → contains m all ≡ true)
      → unseen seen' all + length stack' ≤ unseen seen all + length stack

-- Either the name that is looked for is one of `ns`, or all of them are seen.
abbrev pub Outcome :
    String → List String → List String → List String → Option (List String × List String) → Type 0
Outcome to ns seen stack none = contains to ns ≡ true
Outcome to ns seen stack (some (seen', stack')) = Visited to ns seen stack seen' stack'

module _ (to next : String) (rest seen stack : List String) (other : next ≢ to) where
  abbrev pushed : List String
  pushed = if contains next seen then stack else next ∷ stack

  pushed-costs :
      (all : List String)
      → contains next all ≡ true
      → unseen (add_member next seen) all + length pushed ≤ unseen seen all + length stack
  unfolding contains
  pushed-costs all h = elim (Bool-cases (contains next seen)) [
    | inl e ↦ rw e (omega arith)
    | inr e ↦ rw e (omega (arith, unseen-lt next seen all e h))
  ]

  pushed-keeps : (m : String) → contains m stack ≡ true → contains m pushed ≡ true
  unfolding contains
  pushed-keeps m h = ground arith

  pushed-only : (m : String) → contains m pushed ≡ true → (m ≡ next) ⊎ (contains m stack ≡ true)
  unfolding contains
  pushed-only m h = ground arith

  pushed-next : contains next seen ≡ false → contains next pushed ≡ true
  unfolding contains
  pushed-next h = ground arith

  added-cases :
      (m : String)
      → contains m (add_member next seen) ≡ true
      → (contains m seen ≡ true) ⊎ (contains m pushed ≡ true)
  unfolding contains
  added-cases m h = ground arith

  still_missed : contains to rest ≡ false → contains to (next ∷ rest) ≡ false
  unfolding contains
  still_missed h = elim (string_discrete to next) [
    | yes p ↦ absurd (other (sym p))
    | no n ↦ rw (if_neg (string_discrete to next) n) h
  ]

  Visited-cons :
      (seen' stack' : List String)
      → Visited to rest (add_member next seen) pushed seen' stack'
      → Visited to (next ∷ rest) seen stack seen' stack'
  Visited-cons seen' stack' v = record {
    grows = λ m h. v.grows m (contains-add_member m next seen h);
    keeps = λ m h. v.keeps m (pushed-keeps m h);
    fresh = λ m h. elim (v.fresh m h) [
      | inl a ↦ elim (added-cases m a) [ inl b ↦ inl b | inr b ↦ inr (v.keeps m b) ]
      | inr b ↦ inr b
    ];
    sees_only = λ m h. elim (v.sees_only m h) [
      | inl a ↦ elim (add_member-cases m next seen a) [
        | inl p ↦
            inr (subst (λ x. contains x (next ∷ rest) ≡ true) (sym p) (contains_head next rest))
        | inr b ↦ inl b
      ]
      | inr c ↦ inr (contains_tail m next rest c)
    ];
    covers = λ m h. elim (contains_cons m next rest h) [
      | inl p ↦ v.grows m (rw p (add_member_self next seen))
      | inr c ↦ v.covers m c
    ];
    misses = still_missed v.misses;
    only = λ m h. elim (v.only m h) [
      | inl a ↦ elim (pushed-only m a) [
        | inl p ↦ inr (rw p (contains_head next rest))
        | inr b ↦ inl b
      ]
      | inr c ↦ inr (contains_tail m next rest c)
    ];
    costs = λ all h. omega (
      arith,
      v.costs all (λ m c. h m (contains_tail m next rest c)),
      pushed-costs all (h next (contains_head next rest)),
    );
  }

outcome-cons :
    (to next : String) (rest seen stack : List String)
    → next ≢ to
    → (r : Option (List String × List String))
    → Outcome to rest (add_member next seen) (if contains next seen then stack else next ∷ stack) r
    → Outcome to (next ∷ rest) seen stack r
outcome-cons to next rest seen stack other none o = contains_tail to next rest o
outcome-cons to next rest seen stack other (some (seen', stack')) o =
    Visited-cons to next rest seen stack other seen' stack' o

pub visit-Outcome :
    (to : String) (ns seen stack : List String) → Outcome to ns seen stack (visit to ns seen stack)
unfolding visit contains
visit-Outcome to [] seen stack = record {
  grows = λ m h. h;
  keeps = λ m h. h;
  fresh = λ m h. inl h;
  sees_only = λ m h. inl h;
  covers = λ m h. cc;
  misses = refl;
  only = λ m h. inl h;
  costs = λ all h. omega arith;
}
visit-Outcome to (next ∷ rest) seen stack = elim (string_discrete next to) [
  | yes p ↦
      rw (if_pos (string_discrete next to) p)
        (subst (λ x. contains x (next ∷ rest) ≡ true) p (contains_head next rest))
  | no n ↦ rw (if_neg (string_discrete next to) n) (
      outcome-cons to next rest seen stack n _ (
        visit-Outcome to rest (add_member next seen)
          (if contains next seen then stack else next ∷ stack)))
]
