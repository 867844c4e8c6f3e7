-- ===== src/Formats/TfRecord/RoundTrip.antt =====
-- A record that was written, at the reader.
use distributed_image_proces.Prelude.{
  ℕ, zero, suc, ◌+◌, ◌/◌, ◌%◌, ◌^◌, ◌≤◌, ◌<◌, ◌≡◌, refl, sym, ap, ◌∙◌, true, false, List, [], ◌∷◌,
  ◌++◌, arith, ltb, ◌==◌, length, take, drop, length-append, take-append, drop-append,
}
use mathlib.Core.List.{append_assoc}
use distributed_image_proces.Formats.TfRecord.{
  put_le, get_le, mask_crc, checksum, encode, read_foot, read_payload, read_checked, read, found,
}

-- The number takes at most `n` bytes.
abbrev FitsIn : ℕ → ℕ → Type 0
FitsIn zero v = v ≡ 0
FitsIn (suc n) v = FitsIn n (v / 256)

pub length-put_le : (n v : ℕ) → length (put_le n v) ≡ n
unfolding put_le
length-put_le zero v = refl
length-put_le (suc n) v = omega (arith, length-put_le n (v / 256))

get_le-put_le : (n v : ℕ) → FitsIn n v → get_le (put_le n v) ≡ v
unfolding put_le get_le
get_le-put_le zero v h = sym h
get_le-put_le (suc n) v h = omega (arith, get_le-put_le n (v / 256) h)

mask_crc-lt : (c : ℕ) → mask_crc c < 2 ^ 32
unfolding mask_crc
mask_crc-lt c = omega arith

FitsIn-four : (v : ℕ) → v < 2 ^ 32 → FitsIn 4 v
FitsIn-four v h = omega arith

FitsIn-eight : (v : ℕ) → v < 2 ^ 64 → FitsIn 8 v
FitsIn-eight v h = omega arith

==_self : (a : ℕ) → (a == a) ≡ true
==_self a = ground arith

module _ (crc : List ℕ → ℕ) where
  -- The three fields round a payload.
  pub size_of : List ℕ → List ℕ
  size_of p = put_le 8 (length p % 2 ^ 64)

  pub sum_of : List ℕ → List ℕ
  sum_of b = put_le 4 (checksum crc b)

  pub length-size_of : (p : List ℕ) → length (size_of p) ≡ 8
  unfolding size_of
  length-size_of p = length-put_le 8 _

  pub length-sum_of : (b : List ℕ) → length (sum_of b) ≡ 4
  unfolding sum_of
  length-sum_of b = length-put_le 4 _

  get_le-sum_of : (b : List ℕ) → get_le (sum_of b) ≡ checksum crc b
  unfolding sum_of checksum
  get_le-sum_of b = get_le-put_le 4 _ (FitsIn-four _ (mask_crc-lt (crc b)))

  get_le-size_of : (p : List ℕ) → length p < 2 ^ 64 → get_le (size_of p) ≡ length p
  unfolding size_of
  get_le-size_of p h = get_le-put_le 8 _ (FitsIn-eight _ (omega arith)) ∙ omega arith

  pub encode-fields :
      (p : List ℕ) → encode crc p ≡ size_of p ++ (sum_of (size_of p) ++ (p ++ sum_of p))
  unfolding encode size_of sum_of
  encode-fields p = refl

  pub length-encode : (p : List ℕ) → length (encode crc p) ≡ 16 + length p
  length-encode p =
      ap length (encode-fields p)
      ∙ omega (
        arith,
        length-append (size_of p) (sum_of (size_of p) ++ (p ++ sum_of p)),
        length-append (sum_of (size_of p)) (p ++ sum_of p),
        length-append p (sum_of p),
        length-size_of p,
        length-sum_of (size_of p),
        length-sum_of p,
      )

  read_long :
      (bytes : List ℕ)
      → 12 ≤ length bytes
      → read crc bytes
        ≡ read_checked crc (take 8 bytes) (take 4 (drop 8 bytes)) (drop 4 (drop 8 bytes))
  unfolding read
  read_long [] h = absurd (omega arith)
  read_long (b ∷ bs) h = let long : ltb (length (b ∷ bs)) 12 ≡ false = ground arith in rw long refl

  -- A whole header is read, and the payload is looked for behind it.
  read-header :
      (size want rest : List ℕ)
      → length size ≡ 8
      → length want ≡ 4
      → read crc (size ++ (want ++ rest)) ≡ read_checked crc size want rest
  read-header size want rest h g =
      let tail = drop-append 8 size (want ++ rest) (sym h) in
      read_long (size ++ (want ++ rest))
        (omega (arith, length-append size (want ++ rest), length-append want rest))
      ∙ (λ i.
          read_checked crc (take-append 8 size (want ++ rest) (sym h) i) (take 4 (tail i))
            (drop 4 (tail i)))
      ∙ (λ i.
          read_checked crc size (take-append 4 want rest (sym g) i)
            (drop-append 4 want rest (sym g) i))

  read_checked_ok :
      (size want rest : List ℕ)
      → get_le want ≡ checksum crc size
      → read_checked crc size want rest ≡ read_payload crc (get_le size) rest
  unfolding read_checked
  read_checked_ok size want rest h =
      let same : (checksum crc size == get_le want) ≡ true = ground arith in rw same refl

  pub read-fields :
      (p rest : List ℕ)
      → length p < 2 ^ 64
      → read crc (size_of p ++ (sum_of (size_of p) ++ rest)) ≡ read_payload crc (length p) rest
  read-fields p rest h =
      read-header (size_of p) (sum_of (size_of p)) rest (length-size_of p)
        (length-sum_of (size_of p))
      ∙ read_checked_ok (size_of p) (sum_of (size_of p)) rest (get_le-sum_of (size_of p))
      ∙ ap (λ n. read_payload crc n rest) (get_le-size_of p h)

  pub read_payload-append :
      (p rest : List ℕ) → read_payload crc (length p) (p ++ rest) ≡ read_foot crc p rest
  unfolding read_payload
  read_payload-append p rest =
      let whole : ltb (length (p ++ rest)) (length p) ≡ false =
        ground (arith, length-append p rest) in
      rw (whole, take-append (length p) p rest refl, drop-append (length p) p rest refl) refl

  read_foot-append : (p rest : List ℕ) → read_foot crc p (sum_of p ++ rest) ≡ found p rest
  unfolding read_foot
  read_foot-append p rest =
      let whole : ltb (length (sum_of p ++ rest)) 4 ≡ false =
        ground (arith, length-append (sum_of p) rest, length-sum_of p) in
      let same : (checksum crc p == get_le (take 4 (sum_of p ++ rest))) ≡ true =
        rw (take-append 4 (sum_of p) rest (sym (length-sum_of p)), get_le-sum_of p)
          (==_self (checksum crc p)) in
      rw (whole, same) (ap (found p) (drop-append 4 (sum_of p) rest (sym (length-sum_of p))))

  -- Read of a record that Write wrote, whatever stands behind it, gives the payload and leaves the
  -- rest, whatever the checksum function.
  pub read-encode :
      (p rest : List ℕ) → length p < 2 ^ 64 → read crc (encode crc p ++ rest) ≡ found p rest
  read-encode p rest h =
      ap (read crc) (
        ap (λ l. l ++ rest) (encode-fields p)
        ∙ append_assoc (size_of p) (sum_of (size_of p) ++ (p ++ sum_of p)) rest
        ∙ ap (λ l. size_of p ++ l)
            (append_assoc (sum_of (size_of p)) (p ++ sum_of p) rest
              ∙ ap (λ l. sum_of (size_of p) ++ l) (append_assoc p (sum_of p) rest)))
      ∙ read-fields p (p ++ (sum_of p ++ rest)) h
      ∙ read_payload-append p (sum_of p ++ rest)
      ∙ read_foot-append p rest
