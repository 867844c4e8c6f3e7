-- ===== src/Storage/Multipart/Pieces.antt =====
-- The pieces that an input is cut into, and counting in lists of parts.
use distributed_image_proces.Prelude.{
  ℕ, zero, suc, ◌+◌, ◌≤◌, ◌<◌, ◌≡◌, refl, Bool, true, false, List, [], ◌∷◌, arith, if◌then◌else◌,
  length, take, drop, IfSome, IfSome-bind, IfSome-some, count_if,
}
use distributed_image_proces.Storage.Multipart.{
  Work, Part, Main, reading, draining, completed, aborted, pick, insert_part, sort_parts,
}

-- The bytes cut into pieces of `k` bytes, the last one of what is left, with numbers from `n` on.
abbrev pub Cuts : ℕ → ℕ → List ℕ → List Work → Type 0
Cuts k n bytes [] = bytes ≡ []
Cuts k n bytes (w ∷ ws) =
    (w ≡ record { num = n; content = take k bytes })
    × (0 < length bytes)
    × Cuts k (n + 1) (drop k bytes) ws

pub Cuts-nil : (k n : ℕ) (ws : List Work) → Cuts k n [] ws → ws ≡ []
Cuts-nil k n [] c = refl
Cuts-nil k n (w ∷ ws) c = absurd (omega (arith, c.1))

pub drop_short : (n : ℕ) (xs : List ℕ) → length xs ≤ n → drop n xs ≡ []
drop_short zero [] h = refl
drop_short (suc n) [] h = refl
drop_short zero (x ∷ xs) h = absurd (omega arith)
drop_short (suc n) (x ∷ xs) h = drop_short n xs (omega arith)

-- The bytes that the caller has yet to cut, and the results that it has.
abbrev pub rest_of : Main → List ℕ
rest_of (reading bytes) = bytes
rest_of (draining ps) = []
rest_of (completed ps) = []
rest_of aborted = []

abbrev pub gathered : Main → List Part
gathered (reading bytes) = []
gathered (draining ps) = ps
gathered (completed ps) = ps
gathered aborted = []

abbrev pub is_aborted : Main → Bool
is_aborted (reading bytes) = false
is_aborted (draining ps) = false
is_aborted (completed ps) = false
is_aborted aborted = true

module _ (pred : Part → Bool) where
  abbrev hit : Part → ℕ
  hit p = if pred p then 1 else 0

  count_if-insert_part :
      (p : Part) (ps : List Part) → count_if pred (insert_part p ps) ≡ hit p + count_if pred ps
  unfolding insert_part
  count_if-insert_part p [] = ground arith
  count_if-insert_part p (q ∷ qs) = ground (arith, count_if-insert_part p qs)

  pub count_if-sort_parts : (ps : List Part) → count_if pred (sort_parts ps) ≡ count_if pred ps
  unfolding sort_parts
  count_if-sort_parts [] = refl
  count_if-sort_parts (p ∷ ps) =
      ground (arith, count_if-sort_parts ps, count_if-insert_part p (sort_parts ps))

pub count_if-empty :
    {A : Type 0} (pred : A → Bool) (xs : List A) → length xs ≡ 0 → count_if pred xs ≡ 0
count_if-empty pred [] h = refl
count_if-empty pred (x ∷ xs) h = absurd (omega (arith, h))

pub count_if-pick :
    {A : Type 0} (pred : A → Bool) (i : ℕ) (xs : List A)
    → IfSome
        (λ (r : A × List A). count_if pred r.1 + (if pred r.0 then 1 else 0) ≡ count_if pred xs)
        (pick i xs)
unfolding pick
count_if-pick pred i [] = tt
count_if-pick pred zero (x ∷ xs) = ground arith
count_if-pick pred (suc i) (x ∷ xs) =
    IfSome-bind _ (pick i xs) _
      (λ r e. let l = IfSome-some _ _ r (count_if-pick pred i xs) e in ground (arith, l))
