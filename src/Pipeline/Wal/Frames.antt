-- ===== src/Pipeline/Wal/Frames.antt =====
-- Frames at the reader, whole and torn.
use distributed_image_proces.Prelude.{
  drop-drop, take-append, drop-append, length-take, take-take, ℕ, ◌+◌, ◌%◌, ◌^◌, ◌≤◌, ◌<◌, ◌≡◌,
  refl, sym, ap, ◌∙◌, inl, inr, true, false, List, ◌++◌, arith, ltb, Bool-cases, length, take, drop,
  length-append,
}
use mathlib.Core.List.{append_assoc}
use distributed_image_proces.Pipeline.Wal.{
  put_uint, get_uint, intact, short_read, body, frame_of, frame, read_body, read_sized, read_frame,
  frame_header_len,
}
use distributed_image_proces.Pipeline.Wal.Bytes.{FitsIn, length-put_uint, get_uint-put_uint}

-- The checksum is a uint32.
abbrev pub IsCrc : (List ℕ → ℕ) → Type 0
IsCrc crc = (b : List ℕ) → crc b < 2 ^ 32

-- A record that the format can hold: its number is a uint64, and so is its body's length a uint32.
abbrev pub Framable : ℕ → List ℕ → Type 0
Framable seq payload = (seq < 2 ^ 64) × (8 + length payload < 2 ^ 32)

lt_of_test : (a b : ℕ) → ltb a b ≡ true → a < b
lt_of_test a b h = ground arith

le_of_test : (a b : ℕ) → ltb a b ≡ false → b ≤ a
le_of_test a b h = ground arith

FitsIn-four : (v : ℕ) → v < 2 ^ 32 → FitsIn 4 v
FitsIn-four v h = omega arith

FitsIn-eight : (v : ℕ) → v < 2 ^ 64 → FitsIn 8 v
FitsIn-eight v h = omega arith

module _ (crc : List ℕ → ℕ) where
  pub length-body :
      (seq : ℕ) (payload : List ℕ) → length (body crc seq payload) ≡ 8 + length payload
  unfolding body
  length-body seq payload =
      omega (arith, length-append (put_uint 8 seq) payload, length-put_uint 8 seq)

  pub length-frame_of : (b : List ℕ) → length (frame_of crc b) ≡ 8 + length b
  unfolding frame_of
  length-frame_of b = omega (
    arith,
    length-append (put_uint 4 (length b % 2 ^ 32)) (put_uint 4 (crc b) ++ b),
    length-append (put_uint 4 (crc b)) b,
    length-put_uint 4 (length b % 2 ^ 32),
    length-put_uint 4 (crc b),
  )

  pub length-frame :
      (seq : ℕ) (payload : List ℕ) → length (frame crc seq payload) ≡ 16 + length payload
  unfolding frame
  length-frame seq payload =
      omega (arith, length-frame_of (body crc seq payload), length-body seq payload)

  body_eq : (seq : ℕ) (payload : List ℕ) → body crc seq payload ≡ put_uint 8 seq ++ payload
  unfolding body
  body_eq seq payload = refl

  frame_eq :
      (seq : ℕ) (payload : List ℕ) → frame crc seq payload ≡ frame_of crc (body crc seq payload)
  unfolding frame
  frame_eq seq payload = refl

  frame_of_eq :
      (b : List ℕ) → frame_of crc b ≡ put_uint 4 (length b % 2 ^ 32) ++ (put_uint 4 (crc b) ++ b)
  unfolding frame_of
  frame_of_eq b = refl

  -- A frame starts with the size of its body.
  pub size_start :
      (seq : ℕ) (payload : List ℕ)
      → take 4 (frame crc seq payload) ≡ put_uint 4 (length (body crc seq payload) % 2 ^ 32)
  size_start seq payload =
      let b = body crc seq payload in
      ap (take 4) (frame_eq seq payload ∙ frame_of_eq b)
      ∙ take-append 4 (put_uint 4 (length b % 2 ^ 32)) _ (sym (length-put_uint 4 _))

  -- The parts of a frame with something behind it.
  module _ (b rest : List ℕ) (c : crc b < 2 ^ 32) (l : length b < 2 ^ 32) where
    frame_of-split :
        frame_of crc b ++ rest
        ≡ put_uint 4 (length b % 2 ^ 32) ++ (put_uint 4 (crc b) ++ (b ++ rest))
    unfolding frame_of
    frame_of-split =
        append_assoc (put_uint 4 (length b % 2 ^ 32)) (put_uint 4 (crc b) ++ b) rest
        ∙ ap (λ l. put_uint 4 (length b % 2 ^ 32) ++ l) (append_assoc (put_uint 4 (crc b)) b rest)

    size_field : get_uint (take 4 (frame_of crc b ++ rest)) ≡ length b
    size_field =
        ap (λ x. get_uint (take 4 x)) frame_of-split
        ∙ ap get_uint (take-append 4 (put_uint 4 (length b % 2 ^ 32)) _ (sym (length-put_uint 4 _)))
        ∙ get_uint-put_uint 4 (length b % 2 ^ 32) (FitsIn-four _ (omega arith))
        ∙ omega arith

    after_size : drop 4 (frame_of crc b ++ rest) ≡ put_uint 4 (crc b) ++ (b ++ rest)
    after_size =
        ap (drop 4) frame_of-split
        ∙ drop-append 4 (put_uint 4 (length b % 2 ^ 32)) _ (sym (length-put_uint 4 _))

    crc_field : get_uint (take 4 (drop 4 (frame_of crc b ++ rest))) ≡ crc b
    crc_field =
        ap (λ x. get_uint (take 4 x)) after_size
        ∙ ap get_uint (take-append 4 (put_uint 4 (crc b)) _ (sym (length-put_uint 4 _)))
        ∙ get_uint-put_uint 4 (crc b) (FitsIn-four _ c)

    after_header : drop frame_header_len (frame_of crc b ++ rest) ≡ b ++ rest
    after_header =
        drop-drop 4 4 8 (frame_of crc b ++ rest) (omega arith)
        ∙ ap (drop 4) after_size
        ∙ drop-append 4 (put_uint 4 (crc b)) _ (sym (length-put_uint 4 _))

    body_field : take (length b) (drop frame_header_len (frame_of crc b ++ rest)) ≡ b
    body_field = ap (take (length b)) after_header ∙ take-append (length b) b rest refl

    length-framed : length (frame_of crc b ++ rest) ≡ 8 + length b + length rest
    length-framed = omega (arith, length-append (frame_of crc b) rest, length-frame_of b)

    pub read_frame-frame_of :
        8 ≤ length b
        → read_frame crc (frame_of crc b ++ rest)
          ≡ intact (get_uint (take 8 b)) (drop 8 b) (8 + length b)
    unfolding read_frame read_sized read_body
    read_frame-frame_of h = ground (arith, length-framed, size_field, crc_field, body_field)

  -- A list that starts with the size of a body and is too short for it.
  pub read_frame_short :
      (b x : List ℕ)
      → length b < 2 ^ 32
      → take 4 x ≡ put_uint 4 (length b % 2 ^ 32)
      → length x < 8 + length b
      → read_frame crc x ≡ short_read
  unfolding read_frame read_sized
  read_frame_short b x l e h =
      let size : get_uint (take 4 x) ≡ length b =
        ap get_uint e
        ∙ get_uint-put_uint 4 (length b % 2 ^ 32) (FitsIn-four _ (omega arith))
        ∙ omega arith in
      ground (arith, size)

  pub read_frame_tiny : (x : List ℕ) → length x < 8 → read_frame crc x ≡ short_read
  unfolding read_frame
  read_frame_tiny x h = ground arith

  body_seq :
      (seq : ℕ) (payload : List ℕ) → seq < 2 ^ 64 → get_uint (take 8 (body crc seq payload)) ≡ seq
  body_seq seq payload h =
      ap get_uint (
        ap (take 8) (body_eq seq payload)
        ∙ take-append 8 (put_uint 8 seq) payload (sym (length-put_uint 8 seq)))
      ∙ get_uint-put_uint 8 seq (FitsIn-eight seq h)

  body_payload : (seq : ℕ) (payload : List ℕ) → drop 8 (body crc seq payload) ≡ payload
  body_payload seq payload =
      ap (drop 8) (body_eq seq payload)
      ∙ drop-append 8 (put_uint 8 seq) payload (sym (length-put_uint 8 seq))

  -- readFrame gives back the number and the payload of a frame, and its length, whatever follows it.
  pub read_frame-frame :
      (seq : ℕ) (payload rest : List ℕ)
      → IsCrc crc
      → Framable seq payload
      → read_frame crc (frame crc seq payload ++ rest) ≡ intact seq payload (16 + length payload)
  read_frame-frame seq payload rest c (s, l) =
      let b = body crc seq payload in
      let n : 8 + length b ≡ 16 + length payload = omega (arith, length-body seq payload) in
      ap (λ x. read_frame crc (x ++ rest)) (frame_eq seq payload)
      ∙ read_frame-frame_of b rest (c b) (omega (arith, length-body seq payload))
          (omega (arith, length-body seq payload))
      ∙ (λ i. intact (body_seq seq payload s i) (body_payload seq payload i) (n i))

  -- What a crash leaves of a frame is a short read.
  pub read_frame_torn :
      (seq k : ℕ) (payload : List ℕ)
      → Framable seq payload
      → k < length (frame crc seq payload)
      → read_frame crc (take k (frame crc seq payload)) ≡ short_read
  read_frame_torn seq k payload f h = elim (Bool-cases (ltb k 8)) [
    | inl tiny ↦
        read_frame_tiny (take k (frame crc seq payload))
          (omega (arith, length-take k (frame crc seq payload), lt_of_test k 8 tiny))
    | inr long ↦
        let b = body crc seq payload in
        read_frame_short b (take k (frame crc seq payload)) (omega (arith, length-body seq payload))
          (take-take 4 k (frame crc seq payload) (omega (arith, le_of_test k 8 long))
            ∙ size_start seq payload)
          (omega (
            arith,
            length-take k (frame crc seq payload),
            length-frame seq payload,
            length-body seq payload,
          ))
  ]
