-- ===== src/Cache/Ids.antt =====
-- Lists of ids with a set beside them, as internal/cache keeps a container/list and a map from the
-- ids to its elements. The list stands for both.
use distributed_image_proces.Prelude.{
  refl, suc, ◌≤◌, String, ◌≡◌, ite, Bool, true, false, List, [], ◌∷◌, arith, string_discrete,
  length, refl,
}

-- `_, ok := set[id]`
unfoldable pub contains : String → List String → Bool
contains id [] = false
contains id (x ∷ xs) = ite (string_discrete id x) true (contains id xs)

-- `list.Remove(el)` of the element of an id.
unfoldable pub without : String → List String → List String
without id [] = []
without id (x ∷ xs) = let rest = without id xs in ite (string_discrete id x) xs (x ∷ rest)

-- Each id stands once.
abbrev pub Once : List String → Type 0
Once [] = Unit
Once (x ∷ xs) = (contains x xs ≡ false) × Once xs

pub length-without : (id : String) (xs : List String) → length (without id xs) ≤ length xs
unfolding without
length-without id [] = omega arith
length-without id (x ∷ xs) = ground (arith, length-without id xs)

pub contains-without :
    (k id : String) (xs : List String)
    → Once xs
    → contains k (without id xs) ≡ ite (string_discrete k id) false (contains k xs)
unfolding contains without
contains-without k id [] o = ground arith
contains-without k id (x ∷ xs) o = ground (arith, contains-without k id xs)

pub without-Once : (id : String) (xs : List String) → Once xs → Once (without id xs)
unfolding contains without
without-Once id [] o = tt
without-Once id (x ∷ xs) o = ground (arith, without-Once id xs, contains-without x id xs)

-- To take out an id that is there leaves one less.
pub length-without_present :
    (id : String) (xs : List String)
    → contains id xs ≡ true
    → suc (length (without id xs)) ≡ length xs
unfolding contains without
length-without_present id [] h = cc
length-without_present id (x ∷ xs) h = ground (arith, length-without_present id xs)

pub without_absent : (id : String) (xs : List String) → contains id xs ≡ false → without id xs ≡ xs
unfolding contains without
without_absent id [] h = refl
without_absent id (x ∷ xs) h = ground (arith, without_absent id xs)
