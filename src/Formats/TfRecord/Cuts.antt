-- ===== src/Formats/TfRecord/Cuts.antt =====
-- Streams that are cut off.
use distributed_image_proces.Prelude.{
  ◌>>=◌, ℕ, zero, suc, ◌+◌, ◌-◌, ◌^◌, ◌≤◌, ◌<◌, ◌≡◌, refl, sym, ap, ◌∙◌, true, Option, none, some,
  List, [], ◌∷◌, ◌++◌, arith, ltb, length, take, length-append, length-take_eq, take-append_le, All,
  subst,
}
use mathlib.Core.List.{append-nil, append_assoc}
use native.Mathlib.Decide.{dec_lt}
use distributed_image_proces.Formats.TfRecord.{
  TfRecordWriter, new_tf_record_writer, encode, write, read, read_payload, read_foot, found, eof,
  failed, Fault, short_header, short_payload, short_crc, ReadResult,
}
use distributed_image_proces.Formats.TfRecord.RoundTrip.{
  size_of, sum_of, length-size_of, length-sum_of, encode-fields, length-encode, read-fields,
  read_payload-append, read-encode,
}

take-append_ge :
    (n : ℕ) (xs ys : List ℕ) → length xs ≤ n → take n (xs ++ ys) ≡ xs ++ take (n - length xs) ys
take-append_ge n [] ys h = ap (λ i. take i ys) (omega arith)
take-append_ge zero (x ∷ xs) ys h = absurd (omega arith)
take-append_ge (suc n) (x ∷ xs) ys h =
    ap (λ l. x ∷ l) (take-append_ge n xs ys (omega arith) ∙ ap (λ i. xs ++ take i ys) (omega arith))

take_nil : (n : ℕ) → take {A = ℕ} n [] ≡ []
take_nil zero = refl
take_nil (suc n) = refl

module _ (crc : List ℕ → ℕ) where
  -- A client that reads until there is no record; the fuel bounds the calls.
  pub read_all : ℕ → List ℕ → Option (List (List ℕ) × ReadResult)
  read_all zero bytes = none
  read_all (suc fuel) bytes = elim (read crc bytes) [
    | found p rest ↦ do r ← read_all fuel rest; some (p ∷ r.0, r.1)
    | eof ↦ some ([], eof)
    | failed f ↦ some ([], failed f)
  ]

  -- What a writer makes of records, one after another.
  pub write_all : List (List ℕ) → TfRecordWriter → TfRecordWriter
  write_all [] t = t
  write_all (p ∷ ps) t = write_all ps (write crc p t)

  pub stream_of : List (List ℕ) → List ℕ
  stream_of [] = []
  stream_of (p ∷ ps) = encode crc p ++ stream_of ps

  read_short :
      (bytes : List ℕ) → 0 < length bytes → length bytes < 12 → read crc bytes ≡ failed short_header
  unfolding read
  read_short [] h g = absurd (omega arith)
  read_short (b ∷ bs) h g =
      let short : ltb (length (b ∷ bs)) 12 ≡ true = ground arith in rw short refl

  read_payload_short :
      (n : ℕ) (rest : List ℕ) → length rest < n → read_payload crc n rest ≡ failed short_payload
  unfolding read_payload
  read_payload_short n rest h =
      let short : ltb (length rest) n ≡ true = ground arith in rw short refl

  read_foot_short : (p rest : List ℕ) → length rest < 4 → read_foot crc p rest ≡ failed short_crc
  unfolding read_foot
  read_foot_short p rest h = let short : ltb (length rest) 4 ≡ true = ground arith in rw short refl

  -- A cut behind the header.
  take-encode :
      (k : ℕ) (p : List ℕ)
      → 12 ≤ k
      → take k (encode crc p)
        ≡ size_of crc p ++ (sum_of crc (size_of crc p) ++ take (k - 12) (p ++ sum_of crc p))
  take-encode k p h =
      let size = size_of crc p in
      let sum = sum_of crc size in
      let n = length-size_of crc p in
      let m = length-sum_of crc size in
      ap (take k) (encode-fields crc p)
      ∙ take-append_ge k size (sum ++ (p ++ sum_of crc p)) (omega (arith, n))
      ∙ ap (λ l. size ++ l)
          (take-append_ge (k - length size) sum (p ++ sum_of crc p) (omega (arith, n, m))
            ∙ ap (λ i. sum ++ take i (p ++ sum_of crc p)) (omega (arith, n, m)))

  -- A record that is cut off is not read.
  torn :
      (k : ℕ) (p : List ℕ)
      → length p < 2 ^ 64
      → 0 < k
      → k < 16 + length p
      → (f : Fault) × (read crc (take k (encode crc p)) ≡ failed f)
  torn k p l h g =
      let sized = length-take_eq k (encode crc p) (omega (arith, length-encode crc p)) in
      elim (dec_lt k 12) [
        | yes s ↦ (
          short_header,
          read_short (take k (encode crc p)) (omega (arith, sized)) (omega (arith, sized)),
        )
        | no s ↦
            let tail = take (k - 12) (p ++ sum_of crc p) in
            let begin = ap (read crc) (take-encode k p (omega arith)) ∙ read-fields crc p tail l in
            let n = length-append p (sum_of crc p) in
            let m = length-sum_of crc p in
            elim (dec_lt (k - 12) (length p)) [
              | yes t ↦ (
                short_payload,
                begin
                    ∙ read_payload_short (length p) tail (
                        omega (
                          arith,
                          length-take_eq (k - 12) (p ++ sum_of crc p) (omega (arith, n, m)),
                        )),
              )
              | no t ↦ (
                short_crc,
                begin
                    ∙ ap (read_payload crc (length p))
                        (take-append_ge (k - 12) p (sum_of crc p) (omega arith))
                    ∙ read_payload-append crc p (take (k - 12 - length p) (sum_of crc p))
                    ∙ read_foot_short p (take (k - 12 - length p) (sum_of crc p)) (
                        omega (
                          arith,
                          length-take_eq (k - 12 - length p) (sum_of crc p) (omega (arith, m)),
                          m,
                        )),
              )
            ]
      ]

  -- What comes back of records whose stream was cut off after `k` bytes.
  pub record Recovered (ps : List (List ℕ)) (k : ℕ) (r : Option (List (List ℕ) × ReadResult))
      : Type 0 where
    pub n : ℕ
    pub ending : ReadResult
    pub returns : r ≡ some (take n ps, ending)
    pub clean : ending ≡ eof → take k (stream_of ps) ≡ stream_of (take n ps)
    pub whole : length (stream_of ps) ≤ k → (take n ps ≡ ps) × (ending ≡ eof)

  stream_of-cons :
      (p : List ℕ) (ps : List (List ℕ)) → stream_of (p ∷ ps) ≡ encode crc p ++ stream_of ps
  unfolding stream_of
  stream_of-cons p ps = refl

  length-stream_of :
      (p : List ℕ) (ps : List (List ℕ))
      → length (stream_of (p ∷ ps)) ≡ 16 + length p + length (stream_of ps)
  length-stream_of p ps =
      ap length (stream_of-cons p ps)
      ∙ omega (arith, length-append (encode crc p) (stream_of ps), length-encode crc p)

  read_all-found :
      (fuel : ℕ) (bytes p rest : List ℕ) (q : List (List ℕ)) (e : ReadResult)
      → read crc bytes ≡ found p rest
      → read_all fuel rest ≡ some (q, e)
      → read_all (suc fuel) bytes ≡ some (p ∷ q, e)
  unfolding read_all
  read_all-found fuel bytes p rest q e h g = rw (read_all, h, g)

  read_all-eof :
      (fuel : ℕ) (bytes : List ℕ)
      → read crc bytes ≡ eof
      → read_all (suc fuel) bytes ≡ some ([], eof)
  unfolding read_all
  read_all-eof fuel bytes h = rw (read_all, h)

  read_all-failed :
      (fuel : ℕ) (bytes : List ℕ) (f : Fault)
      → read crc bytes ≡ failed f
      → read_all (suc fuel) bytes ≡ some ([], failed f)
  unfolding read_all
  read_all-failed fuel bytes f h = rw (read_all, h)

  read_nil : read crc [] ≡ eof
  unfolding read
  read_nil = refl

  failed_ne_eof : (f : Fault) → failed f ≡ eof → ⊥
  failed_ne_eof f h = cc

  read_all-Recovered :
      (ps : List (List ℕ)) (k : ℕ)
      → All (λ p. length p < 2 ^ 64) ps
      → Recovered ps k (read_all (suc (length ps)) (take k (stream_of ps)))
  unfolding stream_of
  read_all-Recovered [] k a = record {
    n = 0;
    ending = eof;
    returns = read_all-eof 0 _ (ap (read crc) (take_nil k) ∙ read_nil);
    clean = λ _. take_nil k;
    whole = λ _. (refl, refl);
  }
  read_all-Recovered (p ∷ ps) k a = elim (dec_lt k (16 + length p)) [
    | no s ↦
        let k' = k - length (encode crc p) in
        let r = read_all-Recovered ps k' a.1 in
        let cut : take k (stream_of (p ∷ ps)) ≡ encode crc p ++ take k' (stream_of ps) =
          take-append_ge k (encode crc p) (stream_of ps) (omega (arith, length-encode crc p)) in
        record {
          n = suc r.n;
          ending = r.ending;
          returns =
              read_all-found (suc (length ps)) _ p (take k' (stream_of ps)) (take r.n ps) r.ending
                (ap (read crc) cut ∙ read-encode crc p (take k' (stream_of ps)) a.0) r.returns;
          clean = λ e. cut ∙ ap (λ l. encode crc p ++ l) (r.clean e);
          whole = λ l.
              let w = r.whole (omega (arith, l, length-stream_of p ps, length-encode crc p)) in
              (ap (λ x. p ∷ x) w.0, w.1);
        }
    | yes s ↦
        let cut : take k (stream_of (p ∷ ps)) ≡ take k (encode crc p) =
          take-append_le k (encode crc p) (stream_of ps) (omega (arith, length-encode crc p)) in
        elim (dec_lt 0 k) [
          | no z ↦
              let none_read : take k (stream_of (p ∷ ps)) ≡ [] =
                ap (λ i. take i (stream_of (p ∷ ps)))
                  (let zero_k : k ≡ 0 = omega arith in zero_k) in
              record {
                n = 0;
                ending = eof;
                returns = read_all-eof (suc (length ps)) _ (ap (read crc) none_read ∙ read_nil);
                clean = λ _. none_read;
                whole = λ l. absurd (omega (arith, l, length-stream_of p ps));
              }
          | yes z ↦
              let t = torn k p a.0 z s in
              record {
                n = 0;
                ending = failed t.0;
                returns = read_all-failed (suc (length ps)) _ t.0 (ap (read crc) cut ∙ t.1);
                clean = λ e. absurd (failed_ne_eof t.0 e);
                whole = λ l. absurd (omega (arith, l, length-stream_of p ps));
              }
        ]
  ]

  write_all-out :
      (ps : List (List ℕ)) (t : TfRecordWriter) → (write_all ps t).out ≡ t.out ++ stream_of ps
  unfolding write_all stream_of write
  write_all-out [] t = sym (append-nil t.out)
  write_all-out (p ∷ ps) t =
      write_all-out ps (write crc p t) ∙ append_assoc t.out (encode crc p) (stream_of ps)

  -- Of records that were written one after another, and whose stream was cut off after `k` bytes,
  -- the reader returns the first `n` for some `n`, each whole, whatever the checksum function. It ends with
  -- io.EOF only if the cut is at the end of these, and it returns all of them and ends with io.EOF
  -- if nothing was cut off.
  pub write_all-Recovered :
      (ps : List (List ℕ)) (k : ℕ)
      → All (λ p. length p < 2 ^ 64) ps
      → Recovered ps k (read_all (suc (length ps)) (take k (write_all ps new_tf_record_writer).out))
  unfolding new_tf_record_writer
  write_all-Recovered ps k a =
      subst (λ l. Recovered ps k (read_all (suc (length ps)) (take k l)))
        (sym (write_all-out ps new_tf_record_writer)) (read_all-Recovered ps k a)
