-- ===== src/Prelude/Assoc.antt =====
-- Go maps with string keys, as association lists. The order of the list stands for the order in
-- which a `range` loop meets the entries; nothing is assumed of it.
use Prim.Native.Nat.{ℕ, suc, ◌+◌, ◌≤◌}
use Prim.Native.String.{String}
use mathlib.Core.Path.{◌≡◌, refl, sym, subst₂}
use mathlib.Core.Logic.{ite, if_pos, if_neg}
use mathlib.Core.Bool.{Bool, true, false}
use mathlib.Core.List.{List, [], ◌∷◌}
use mathlib.Core.Option.{Option, none, some}
use native.Mathlib.Omega.{arith}
use distributed_image_proces.Prelude.Tests.{string_discrete}
use distributed_image_proces.Prelude.Lists.{length}

module _ {ℓ} {V : Type ℓ} where
  -- `v, ok := m[k]`
  unfoldable pub lookup : String → List (String × V) → Option V
  lookup k [] = none
  lookup k ((j, v) ∷ m) = ite (string_discrete k j) (some v) (lookup k m)

  -- `m[k] = v`
  unfoldable pub insert : String → V → List (String × V) → List (String × V)
  insert k v [] = (k, v) ∷ []
  insert k v ((j, w) ∷ m) = ite (string_discrete k j) ((k, v) ∷ m) ((j, w) ∷ insert k v m)

  -- `delete(m, k)`
  unfoldable pub delete : String → List (String × V) → List (String × V)
  delete k [] = []
  delete k ((j, w) ∷ m) = let rest = delete k m in ite (string_discrete k j) rest ((j, w) ∷ rest)

  -- `_, ok := m[k]`
  abbrev pub has : String → List (String × V) → Bool
  has k m = elim (lookup k m) [ none ↦ false | some _ ↦ true ]

  -- `m[k]` of a map whose zero value is `d`
  abbrev pub lookup_or : String → V → List (String × V) → V
  lookup_or k d m = elim (lookup k m) [ none ↦ d | some v ↦ v ]

  pub lookup-insert :
      (j k : String) (v : V) (m : List (String × V))
      → lookup j (insert k v m) ≡ ite (string_discrete j k) (some v) (lookup j m)
  unfolding lookup insert
  lookup-insert j k v [] = refl
  lookup-insert j k v ((i, w) ∷ m) = ground (arith, lookup-insert j k v m)

  pub lookup-delete :
      (j k : String) (m : List (String × V))
      → lookup j (delete k m) ≡ ite (string_discrete j k) none (lookup j m)
  unfolding lookup delete
  lookup-delete j k [] = ground arith
  lookup-delete j k ((i, w) ∷ m) = ground (arith, lookup-delete j k m)

  pub length-insert :
      (k : String) (v : V) (m : List (String × V))
      → length (insert k v m) ≡ (elim (lookup k m) [ none ↦ suc (length m) | some _ ↦ length m ])
  unfolding lookup insert
  length-insert k v [] = refl
  length-insert k v ((i, w) ∷ m) = ground (arith, length-insert k v m)

-- A sum over the entries of a map.
module _ {ℓ} {V : Type ℓ} (f : V → ℕ) where
  abbrev pub sum_map : List (String × V) → ℕ
  sum_map [] = 0
  sum_map ((k, v) ∷ m) = f v + sum_map m

  abbrev pub at_key : String → List (String × V) → ℕ
  at_key k m = elim (lookup k m) [ none ↦ 0 | some v ↦ f v ]

  -- A write changes the sum by what it puts in and what it replaces.
  pub sum_map-insert :
      (k : String) (v : V) (m : List (String × V))
      → sum_map (insert k v m) + at_key k m ≡ sum_map m + f v
  unfolding lookup insert
  sum_map-insert k v [] = omega arith
  sum_map-insert k v ((i, w) ∷ m) = ground (arith, sum_map-insert k v m)

  pub at_key-le-sum_map : (k : String) (m : List (String × V)) → at_key k m ≤ sum_map m
  unfolding lookup
  at_key-le-sum_map k [] = omega arith
  at_key-le-sum_map k ((i, w) ∷ m) = ground (arith, at_key-le-sum_map k m)

-- No key stands twice.
module _ {ℓ} {V : Type ℓ} where
  abbrev pub Distinct : List (String × V) → Type ℓ
  Distinct [] = Unit
  Distinct ((k, v) ∷ m) = (lookup k m ≡ none) × Distinct m

  pub insert-Distinct :
      (k : String) (v : V) (m : List (String × V)) → Distinct m → Distinct (insert k v m)
  unfolding lookup insert
  insert-Distinct k v [] d = (refl, tt)
  insert-Distinct k v ((i, w) ∷ m) d = ground (arith, lookup-insert i k v m, insert-Distinct k v m)

  pub delete-Distinct : (k : String) (m : List (String × V)) → Distinct m → Distinct (delete k m)
  unfolding lookup delete
  delete-Distinct k [] d = tt
  delete-Distinct k ((i, w) ∷ m) d = ground (arith, lookup-delete i k m, delete-Distinct k m)

  -- An entry further down is found past a head with another key.
  pub lookup_tail :
      (k i : String) (v w : V) (m : List (String × V))
      → lookup i m ≡ none
      → lookup k m ≡ some v
      → lookup k ((i, w) ∷ m) ≡ some v
  unfolding lookup
  lookup_tail k i v w m h e = ground arith

module _ {ℓ} {V : Type ℓ} where
  lookup-delete_absent : (k : String) (m : List (String × V)) → lookup k m ≡ none → delete k m ≡ m
  unfolding lookup delete
  lookup-delete_absent k [] h = refl
  lookup-delete_absent k ((i, w) ∷ m) h = ground (arith, lookup-delete_absent k m)

  -- A delete takes away the entry that the key has, if any.
  pub length-delete :
      (k : String) (m : List (String × V))
      → Distinct m
      → length (delete k m) + at_key (λ _. 1) k m ≡ length m
  unfolding lookup delete
  length-delete k [] d = omega arith
  length-delete k ((i, w) ∷ m) d = ground (arith, length-delete k m, lookup-delete_absent k m)

  pub sum_map-delete :
      (f : V → ℕ) (k : String) (m : List (String × V))
      → Distinct m
      → sum_map f (delete k m) + at_key f k m ≡ sum_map f m
  unfolding lookup delete
  sum_map-delete f k [] d = omega arith
  sum_map-delete f k ((i, w) ∷ m) d = ground (arith, sum_map-delete f k m, lookup-delete_absent k m)

-- A property of every entry of a map.
module _ {ℓ κ} {V : Type ℓ} (P : String → V → Type κ) where
  abbrev pub AllEntries : List (String × V) → Type κ
  AllEntries [] = Unit
  AllEntries ((k, v) ∷ m) = P k v × AllEntries m

  pub insert-AllEntries :
      (k : String) (v : V) (m : List (String × V))
      → P k v
      → AllEntries m
      → AllEntries (insert k v m)
  unfolding insert
  insert-AllEntries k v [] p a = (p, tt)
  insert-AllEntries k v ((i, w) ∷ m) p a = elim (string_discrete k i) [
    | yes e ↦ rw (if_pos _ e) (p, a.1)
    | no n ↦ rw (if_neg _ n) (a.0, insert-AllEntries k v m p a.1)
  ]

  pub AllEntries-lookup :
      (k : String) (v : V) (m : List (String × V)) → AllEntries m → lookup k m ≡ some v → P k v
  unfolding lookup
  AllEntries-lookup k v [] a e = cc
  AllEntries-lookup k v ((i, w) ∷ m) a e = elim (string_discrete k i) [
    | yes p ↦ let same : w ≡ v = ground arith in subst₂ P (sym p) same a.0
    | no n ↦ AllEntries-lookup k v m a.1 (ground arith)
  ]

-- A weaker property holds of every entry too.
pub AllEntries-mono {ℓ κ μ} :
    {V : Type ℓ} (P : String → V → Type κ) (Q : String → V → Type μ) (m : List (String × V))
    → ((k : String) (v : V) → P k v → Q k v)
    → AllEntries P m
    → AllEntries Q m
AllEntries-mono P Q [] f a = tt
AllEntries-mono P Q ((k, v) ∷ m) f a = (f k v a.0, AllEntries-mono P Q m f a.1)
