-- ===== src/Scheduler/State/Recovery.antt =====
-- What Restore makes of the records that persisting wrote.
use mathlib.Core.List.{append-nil, append_assoc}
use distributed_image_proces.Scheduler.Invariant.{WellFormed, TaskOk}
use distributed_image_proces.Scheduler.State.{load, newest, index_by, values, snapshot, Scheduler}
use distributed_image_proces.Prelude.{
  String, ◌≡◌, refl, sym, ap, ◌∙◌, ◌≢◌, if_neg, Option, none, some, List, [], ◌∷◌, ◌++◌, arith,
  string_discrete, lookup, insert, Distinct, AllEntries, AllEntries-mono,
}

insert_absent :
    {V : Type 0} (k : String) (v : V) (m : List (String × V))
    → lookup k m ≡ none
    → insert k v m ≡ m ++ (k, v) ∷ []
unfolding lookup insert
insert_absent k v [] e = refl
insert_absent k v ((i, w) ∷ m) e = ground (arith, insert_absent k v m)

lookup_append :
    {V : Type 0} (j k : String) (v : V) (m : List (String × V))
    → lookup j m ≡ none
    → j ≢ k
    → lookup j (m ++ (k, v) ∷ []) ≡ none
unfolding lookup
lookup_append j k v [] e n = if_neg (string_discrete j k) n (some v) none
lookup_append j k v ((i, w) ∷ m) e n = ground (arith, lookup_append j k v m)

later_keys :
    {V : Type 0} (k : String) (v : V) (m rest : List (String × V))
    → lookup k rest ≡ none
    → AllEntries (λ j _. lookup j m ≡ none) rest
    → AllEntries (λ j _. lookup j (m ++ (k, v) ∷ []) ≡ none) rest
unfolding lookup
later_keys k v m [] e a = tt
later_keys k v m ((j, w) ∷ rest) e a = elim (string_discrete k j) [
  | yes p ↦ absurd (ground arith)
  | no n ↦ (lookup_append j k v m a.0 (λ q. n (sym q)), later_keys k v m rest (ground arith) a.1)
]

index_by-values :
    {V : Type 0} (id : V → String) (rest m : List (String × V))
    → Distinct rest
    → AllEntries (λ k v. id v ≡ k) rest
    → AllEntries (λ k _. lookup k m ≡ none) rest
    → index_by id (values rest) m ≡ m ++ rest
unfolding index_by
index_by-values id [] m d named new = sym (append-nil m)
index_by-values id ((k, v) ∷ rest) m d named new =
    ap (λ i. index_by id (values rest) (insert i v m)) named.0
    ∙ (ap (index_by id (values rest)) (insert_absent k v m new.0)
        ∙ (index_by-values id rest (m ++ (k, v) ∷ []) d.1 named.1 (later_keys k v m rest d.0 new.1)
            ∙ append_assoc m ((k, v) ∷ []) rest))

all_absent :
    {V : Type 0} (m : List (String × V)) → AllEntries {V = V} (λ k _. lookup {V = V} k [] ≡ none) m
unfolding lookup
all_absent [] = tt
all_absent ((k, v) ∷ m) = (refl, all_absent m)

pub load-snapshot :
    (s s0 : Scheduler)
    → WellFormed s
    → load (snapshot s) s0 ≡ record s0 { jobs = s.jobs; tasks = s.tasks; pending_q = s.pending_q }
unfolding load snapshot
load-snapshot s s0 v = rw (
  index_by-values (λ j. j.id) s.jobs [] v.jobs_distinct v.jobs_keyed (all_absent s.jobs),
  index_by-values (λ t. t.id) s.tasks [] v.distinct
      (AllEntries-mono (TaskOk s.jobs) (λ k t. t.id ≡ k) s.tasks (λ k t ok. ok.id_key) v.entries)
      (all_absent s.tasks),
)

pub newest-append :
    {B : Type 0} (snap : Option B) (records : List B) (r : B)
    → newest snap (records ++ r ∷ []) ≡ some r
unfolding newest
newest-append snap [] r = refl
newest-append snap (x ∷ xs) r = newest-append (some x) xs r
