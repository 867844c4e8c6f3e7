-- ===== src/Auth/Tokens/RoundTrip.antt =====
-- What Parse makes of the tokens that Sign mints.
use distributed_image_proces.Prelude.{
  subst, sym, ℕ, ◌≡◌, refl, ap, ◌∙◌, if_pos, true, false, some, List, [], ◌∷◌, ◌++◌, arith, ◌==◌,
  Bool-cases, inl, inr, string_discrete, ℤ, All,
}
use mathlib.Core.List.{append_assoc}
use distributed_image_proces.Auth.Tokens.Times.{NoWrap, Judged, check_times-Judged}
use distributed_image_proces.Auth.Tokens.{
  Claims, Codec, Verifier, dot, split, bytes_equal, check_times, signing_input, mac, hs256, sign,
  parse_claims, parse_signed, parse_as, parse_parts, parse,
}

abbrev pub Dotless : List ℕ → Type 0
Dotless = All (λ b. (b == dot) ≡ false)

split-Dotless : (xs : List ℕ) → Dotless xs → split xs ≡ xs ∷ []
unfolding split
split-Dotless [] d = refl
split-Dotless (x ∷ xs) d = rw (split-Dotless xs d.1, d.0)

pub split-nonempty :
    (xs : List ℕ) → (part : List ℕ) × (parts : List (List ℕ)) × (split xs ≡ part ∷ parts)
unfolding split
split-nonempty [] = ([], [], refl)
split-nonempty (x ∷ xs) =
    let (part, parts, e) = split-nonempty xs in
    elim (Bool-cases (x == dot)) [
      | inl at_dot ↦ ([], part ∷ parts, rw (e, at_dot))
      | inr other ↦ (x ∷ part, parts, rw (e, other))
    ]

split-append : (xs ys : List ℕ) → Dotless xs → split (xs ++ dot ∷ ys) ≡ xs ∷ split ys
unfolding split
split-append [] ys d = let (part, parts, e) = split-nonempty ys in rw e
split-append (x ∷ xs) ys d = rw (split-append xs ys d.1, d.0)

bytes_equal_self : (xs : List ℕ) → bytes_equal xs xs ≡ true
unfolding bytes_equal
bytes_equal_self [] = refl
bytes_equal_self (x ∷ xs) = ground (arith, bytes_equal_self xs)

pub bytes_equal_eq : (xs ys : List ℕ) → bytes_equal xs ys ≡ true → xs ≡ ys
unfolding bytes_equal
bytes_equal_eq [] [] h = refl
bytes_equal_eq [] (y ∷ ys) h = cc
bytes_equal_eq (x ∷ xs) [] h = cc
bytes_equal_eq (x ∷ xs) (y ∷ ys) h = ground (arith, bytes_equal_eq xs ys)

-- The libraries read back what they wrote: base64 makes no dot, and JSON keeps the header of Sign and
-- these claims.
pub record Lawful (k : Codec) (c : Claims) : Type 0 where
  pub dotless : (bytes : List ℕ) → Dotless (k.encode bytes)
  pub decode-encode : (bytes : List ℕ) → k.decode (k.encode bytes) ≡ some bytes
  pub header_back :
      k.get_header (k.put_header (record { alg = "HS256"; typ = "JWT" }))
      ≡ some (record { alg = "HS256"; typ = "JWT" })
  pub claims_back : k.get_claims (k.put_claims c) ≡ some c

module _ (k : Codec) (v : Verifier) where
  split-sign :
      (c : Claims)
      → Lawful k c
      → split (sign k v c)
        ≡ k.encode (k.put_header (hs256 k v))
          ∷ k.encode (k.put_claims c)
          ∷ k.encode (
              mac k v (
                signing_input k v
                  (k.encode (k.put_header (hs256 k v)))
                  (k.encode (k.put_claims c))))
          ∷ []
  unfolding sign
  split-sign c l =
      let head = k.encode (k.put_header (hs256 k v)) in
      let body = k.encode (k.put_claims c) in
      let sig = k.encode (mac k v (signing_input k v head body)) in
      ap split (append_assoc head (dot ∷ body) (dot ∷ sig))
      ∙ split-append head (body ++ dot ∷ sig) (l.dotless _)
      ∙ ap (λ ps. head ∷ ps)
          (split-append body sig (l.dotless _)
            ∙ ap (λ ps. body ∷ ps) (split-Dotless sig (l.dotless _)))

  parse_signed-mac :
      (now : ℤ) (head body : List ℕ) (c : Claims)
      → Lawful k c
      → parse_signed k v now head body (k.encode (mac k v (signing_input k v head body)))
        ≡ parse_claims k v now body
  unfolding parse_signed
  parse_signed-mac now head body c l =
      let input = signing_input k v head body in
      rw (parse_signed, l.decode-encode (mac k v input), bytes_equal_self (mac k v input))

  parse_claims-put_claims :
      (now : ℤ) (c : Claims)
      → Lawful k c
      → parse_claims k v now (k.encode (k.put_claims c)) ≡ check_times now v.leeway c
  unfolding parse_claims
  parse_claims-put_claims now c l =
      rw (parse_claims, l.decode-encode (k.put_claims c), l.claims_back)

  parse_as-hs256 :
      (now : ℤ) (head body sig : List ℕ)
      → parse_as k v now (hs256 k v) head body sig ≡ parse_signed k v now head body sig
  unfolding parse_as
  parse_as-hs256 now head body sig = if_pos (string_discrete "HS256" "HS256") refl _ _

  parse_parts-encode :
      (now : ℤ) (c : Claims) (body sig : List ℕ)
      → Lawful k c
      → parse_parts k v now (k.encode (k.put_header (hs256 k v)) ∷ body ∷ sig ∷ [])
        ≡ parse_as k v now (hs256 k v) (k.encode (k.put_header (hs256 k v))) body sig
  unfolding parse_parts
  parse_parts-encode now c body sig l =
      rw (parse_parts, l.decode-encode (k.put_header (hs256 k v)), l.header_back)

  parse-sign_checks :
      (c : Claims) (now : ℤ) → Lawful k c → parse k v now (sign k v c) ≡ check_times now v.leeway c
  unfolding parse
  parse-sign_checks c now l =
      let head = k.encode (k.put_header (hs256 k v)) in
      let body = k.encode (k.put_claims c) in
      let sig = k.encode (mac k v (signing_input k v head body)) in
      ap (parse_parts k v now) (split-sign c l)
      ∙ parse_parts-encode now c body sig l
      ∙ parse_as-hs256 now head body sig
      ∙ parse_signed-mac now head body c l
      ∙ parse_claims-put_claims now c l

  -- Parse of a token that Sign minted, by a verifier with the same secret, where the codecs read back
  -- what they wrote, and where the int64 sums of the claims' times and the leeway do not overflow. If the
  -- expiry is set and more than the leeway ago, Parse says that the token has expired. Otherwise, if the
  -- first moment is set and more than the leeway ahead, it says that the token is not valid yet. Otherwise
  -- it returns the claims.
  pub parse-sign :
      (c : Claims) (now : ℤ)
      → Lawful k c
      → NoWrap v.leeway c
      → Judged now v.leeway c (parse k v now (sign k v c))
  parse-sign c now l fits =
      subst (Judged now v.leeway c) (sym (parse-sign_checks c now l))
        (check_times-Judged now v.leeway c fits)
