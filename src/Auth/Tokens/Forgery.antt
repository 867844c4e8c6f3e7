-- ===== src/Auth/Tokens/Forgery.antt =====
-- What a token has that Parse accepts.
use distributed_image_proces.Prelude.{
  ℕ, ◌≡◌, refl, sym, ap, ◌∙◌, if_pos, if_neg, some, List, [], ◌∷◌, ◌++◌, arith, ◌==◌, Bool-cases,
  Option-cases, subst, inl, inr, string_discrete, ℤ,
}
use distributed_image_proces.Auth.Tokens.{
  Claims, Header, Codec, Verifier, valid, dot, split, bytes_equal, check_times, signing_input, mac,
  parse_claims, parse_signed, parse_as, parse_parts, parse,
}
use distributed_image_proces.Auth.Tokens.Times.{Expired, TooEarly, check_times-valid}
use distributed_image_proces.Auth.Tokens.RoundTrip.{bytes_equal_eq, split-nonempty}

-- `strings.Join` at the dots.
abbrev join : List (List ℕ) → List ℕ
join [] = []
join (part ∷ []) = part
join (part ∷ next ∷ parts) = part ++ dot ∷ join (next ∷ parts)

join-cons :
    (b : ℕ) (part : List ℕ) (parts : List (List ℕ))
    → join ((b ∷ part) ∷ parts) ≡ b ∷ join (part ∷ parts)
join-cons b part [] = refl
join-cons b part (next ∷ parts) = refl

join-split : (xs : List ℕ) → join (split xs) ≡ xs
unfolding split
join-split [] = refl
join-split (x ∷ xs) =
    let (part, parts, e) = split-nonempty xs in
    let ih = ap join (sym e) ∙ join-split xs in
    elim (Bool-cases (x == dot)) [
      | inl at_dot ↦
          let same : x ≡ dot = ground (arith, at_dot) in
          rw (split, e, at_dot) (ap (λ l. dot ∷ l) ih ∙ ap (λ b. b ∷ xs) (sym same))
      | inr other ↦ rw (split, e, other) (join-cons x part parts ∙ ap (λ l. x ∷ l) ih)
    ]

module _ (k : Codec) (v : Verifier) (now : ℤ) where
  -- A text of three segments: the header names HS256, the signature is the HMAC of the first two, with
  -- the dot between them, under the verifier's secret, and the claims are those of the second. They have
  -- not expired and are not too early.
  pub record Accepted (token : List ℕ) (c : Claims) : Type 0 where
    pub head : List ℕ
    pub body : List ℕ
    pub sig : List ℕ
    pub segments_of : token ≡ head ++ 46 ∷ (body ++ 46 ∷ sig)
    pub header : Header
    pub head_bytes : List ℕ
    pub decoded : k.decode head ≡ some head_bytes
    pub read : k.get_header head_bytes ≡ some header
    pub only_hs256 : header.alg ≡ "HS256"
    pub signed : k.decode sig ≡ some (k.hmac v.secret (head ++ 46 ∷ body))
    pub body_bytes : List ℕ
    pub body_decoded : k.decode body ≡ some body_bytes
    pub claimed : k.get_claims body_bytes ≡ some c
    pub not_expired : ¬ Expired now v.leeway c
    pub not_early : ¬ TooEarly now v.leeway c

  parse_claims-valid :
      (body : List ℕ) (c : Claims)
      → parse_claims k v now body ≡ valid c
      → (bytes : List ℕ) × (k.decode body ≡ some bytes)
        × (k.get_claims bytes ≡ some c)
        × (¬ Expired now v.leeway c)
        × (¬ TooEarly now v.leeway c)
  unfolding parse_claims
  parse_claims-valid body c h = elim (Option-cases (k.decode body)) [
    | inl nothing ↦ absurd (ground (arith, nothing, h))
    | inr (bytes, e) ↦ elim (Option-cases (k.get_claims bytes)) [
      | inl nothing ↦ absurd (ground (arith, e, nothing, h))
      | inr (c', f) ↦
          let checked : check_times now v.leeway c' ≡ valid c = ground (arith, e, f, h) in
          let (same, fresh, begun) = check_times-valid now v.leeway c' c checked in
          (
            bytes,
            e,
            f ∙ ap some same,
            subst (λ x. ¬ Expired now v.leeway x) same fresh,
            subst (λ x. ¬ TooEarly now v.leeway x) same begun,
          )
    ]
  ]

  parse_signed-valid :
      (head body sig : List ℕ) (c : Claims)
      → parse_signed k v now head body sig ≡ valid c
      → (k.decode sig ≡ some (mac k v (signing_input k v head body)))
        × (parse_claims k v now body ≡ valid c)
  unfolding parse_signed
  parse_signed-valid head body sig c h = elim (Option-cases (k.decode sig)) [
    | inl nothing ↦ absurd (ground (arith, nothing, h))
    | inr (got, e) ↦
        let expected = mac k v (signing_input k v head body) in
        elim (Bool-cases (bytes_equal expected got)) [
          | inl equal ↦
              (e ∙ ap some (sym (bytes_equal_eq expected got equal)), ground (arith, e, equal, h))
          | inr other ↦ absurd (ground (arith, e, other, h))
        ]
  ]

  parse_as-valid :
      (h : Header) (head body sig : List ℕ) (c : Claims)
      → parse_as k v now h head body sig ≡ valid c
      → (h.alg ≡ "HS256") × (parse_signed k v now head body sig ≡ valid c)
  unfolding parse_as
  parse_as-valid h head body sig c e = elim (string_discrete h.alg "HS256") [
    | yes p ↦ (p, sym (if_pos (string_discrete h.alg "HS256") p _ _) ∙ e)
    | no n ↦ absurd (cc (sym (if_neg (string_discrete h.alg "HS256") n _ _) ∙ e))
  ]

  parse_parts-valid :
      (parts : List (List ℕ)) (c : Claims)
      → parse_parts k v now parts ≡ valid c
      → Accepted (join parts) c
  unfolding parse_parts
  parse_parts-valid [] c e = absurd (cc e)
  parse_parts-valid (a ∷ []) c e = absurd (cc e)
  parse_parts-valid (a ∷ b ∷ []) c e = absurd (cc e)
  parse_parts-valid (a ∷ b ∷ d ∷ x ∷ rest) c e = absurd (cc e)
  parse_parts-valid (head ∷ body ∷ sig ∷ []) c e = elim (Option-cases (k.decode head)) [
    | inl nothing ↦ absurd (ground (arith, nothing, e))
    | inr (bytes, d) ↦ elim (Option-cases (k.get_header bytes)) [
      | inl nothing ↦ absurd (ground (arith, d, nothing, e))
      | inr (h, r) ↦
          let named : parse_as k v now h head body sig ≡ valid c = ground (arith, d, r, e) in
          let (alg, on) = parse_as-valid h head body sig c named in
          let (mac_of, claims) = parse_signed-valid head body sig c on in
          let (body_bytes, b, g, fresh, begun) = parse_claims-valid body c claims in
          record {
            head = head;
            body = body;
            sig = sig;
            segments_of = refl;
            header = h;
            head_bytes = bytes;
            decoded = d;
            read = r;
            only_hs256 = alg;
            signed = mac_of;
            body_bytes = body_bytes;
            body_decoded = b;
            claimed = g;
            not_expired = fresh;
            not_early = begun;
          }
    ]
  ]

  -- A token that Parse accepts is a text of three segments: its header names HS256, its signature is the
  -- HMAC of the first two segments under the verifier's secret, and the claims that Parse returns are
  -- those of the second segment. Their expiry, if they have one, is at most the leeway ago, and their
  -- first moment, if they have one, at most the leeway ahead.
  pub parse-Accepted :
      (token : List ℕ) (c : Claims) → parse k v now token ≡ valid c → Accepted token c
  unfolding parse
  parse-Accepted token c e =
      subst (λ t. Accepted t c) (join-split token) (parse_parts-valid (split token) c e)
