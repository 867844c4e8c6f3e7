-- ===== src/Auth/Tokens.antt =====
-- internal/auth/jwt.go: Claims and Verifier. A text is the list of its bytes; HMAC, base64 and JSON are
-- parameters. Seconds are int64 with their wrap-around, and the texts of errors are left out.
pub mod Times
pub mod RoundTrip
pub mod Forgery
mod Tests
use distributed_image_proces.Prelude.{
  ℕ, zero, suc, ◌+◌, ◌-◌, String, Bool, true, false, not, ◌&&◌, ite, Option, none, some, List, [],
  ◌∷◌, ◌++◌, ltb, leb, ◌==◌, if◌then◌else◌, string_discrete, ℤ, pos, negsuc, ltb_ℤ, int64_max,
  add_int64,
}

pub record Claims : Type 0 where
  pub subject : String
  pub issuer : String
  pub tenant : String
  pub roles : List String
  pub issued_at : ℤ
  pub not_before : ℤ
  pub expires_at : ℤ

pub record Header : Type 0 where
  pub alg : String
  pub typ : String

-- The libraries: base64.RawURLEncoding, encoding/json on the two records, and HMAC-SHA256 by its key.
pub record Codec : Type 0 where
  pub encode : List ℕ → List ℕ
  pub decode : List ℕ → Option (List ℕ)
  pub put_header : Header → List ℕ
  pub get_header : List ℕ → Option Header
  pub put_claims : Claims → List ℕ
  pub get_claims : List ℕ → Option Claims
  pub hmac : List ℕ → List ℕ → List ℕ

-- Verifier; `now` is an argument of Parse, and the leeway is in whole seconds, as Parse rounds it.
pub record Verifier : Type 0 where
  pub secret : List ℕ
  pub leeway : ℕ

-- The reasons of Parse.
pub data TokenError : Type 0 where
  segments bad_header unsupported_alg bad_signature mismatch bad_claims expired too_early :
      TokenError

pub data Parsed : Type 0 where
  valid : Claims → Parsed
  invalid : TokenError → Parsed

abbrev pub dot : ℕ
dot = 46

-- `strings.Split` at the dots.
unfoldable pub split : List ℕ → List (List ℕ)
split [] = [] ∷ []
split (b ∷ bs) = elim (split bs) [
  | [] ↦ (b ∷ []) ∷ []
  | part ∷ parts ↦ if b == dot then [] ∷ part ∷ parts else (b ∷ part) ∷ parts
]

-- hmac.Equal
unfoldable pub bytes_equal : List ℕ → List ℕ → Bool
bytes_equal [] [] = true
bytes_equal [] (b ∷ bs) = false
bytes_equal (a ∷ as_) [] = false
bytes_equal (a ∷ as_) (b ∷ bs) = a == b && bytes_equal as_ bs

-- The int64 sum and difference of a time and a number of seconds.
unfoldable pub add_seconds : ℤ → ℕ → ℤ
add_seconds (pos a) s = add_int64 a s
add_seconds (negsuc n) s = if leb s n then negsuc (n - s) else pos (s - n - 1)

unfoldable pub sub_seconds : ℤ → ℕ → ℤ
sub_seconds (pos a) s = if leb s a then pos (a - s) else negsuc (s - a - 1)
sub_seconds (negsuc n) s =
    if ltb (n + s) int64_max then negsuc (n + s) else pos (18446744073709551616 - (n + s) - 1)

abbrev pub is_zero : ℤ → Bool
is_zero (pos zero) = true
is_zero (pos (suc n)) = false
is_zero (negsuc n) = false

-- The checks of the times.
unfoldable pub check_times : ℤ → ℕ → Claims → Parsed
unfolding add_seconds sub_seconds
check_times now skew c =
    if not (is_zero c.expires_at) && ltb_ℤ (add_seconds c.expires_at skew) now
    then invalid expired
    else if not (is_zero c.not_before) && ltb_ℤ now (sub_seconds c.not_before skew)
    then invalid too_early
    else valid c

module _ (k : Codec) (v : Verifier) where
  abbrev pub signing_input : List ℕ → List ℕ → List ℕ
  signing_input head body = head ++ dot ∷ body

  unfoldable pub mac : List ℕ → List ℕ
  mac input = k.hmac v.secret input

  abbrev pub hs256 : Header
  hs256 = record { alg = "HS256"; typ = "JWT" }

  -- Sign
  unfoldable pub sign : Claims → List ℕ
  unfolding mac
  sign c =
      let input = signing_input (k.encode (k.put_header hs256)) (k.encode (k.put_claims c)) in
      input ++ dot ∷ k.encode (mac input)

  -- Parse from the claims on.
  unfoldable pub parse_claims : ℤ → List ℕ → Parsed
  unfolding check_times
  parse_claims now body = elim (k.decode body) [
    | none ↦ invalid bad_claims
    | some bytes ↦ elim (k.get_claims bytes) [
      | none ↦ invalid bad_claims
      | some c ↦ check_times now v.leeway c
    ]
  ]

  -- Parse from the signature on.
  unfoldable pub parse_signed : ℤ → List ℕ → List ℕ → List ℕ → Parsed
  unfolding mac bytes_equal parse_claims
  parse_signed now head body sig = elim (k.decode sig) [
    | none ↦ invalid bad_signature
    | some got ↦
        if bytes_equal (mac (signing_input head body)) got
        then parse_claims now body
        else invalid mismatch
  ]

  -- Parse with the header that was read.
  unfoldable pub parse_as : ℤ → Header → List ℕ → List ℕ → List ℕ → Parsed
  unfolding parse_signed
  parse_as now h head body sig =
      ite (string_discrete h.alg "HS256") (parse_signed now head body sig) (invalid unsupported_alg)

  unfoldable pub parse_parts : ℤ → List (List ℕ) → Parsed
  unfolding parse_as
  parse_parts now (head ∷ body ∷ sig ∷ []) = elim (k.decode head) [
    | none ↦ invalid bad_header
    | some bytes ↦ elim (k.get_header bytes) [
      | none ↦ invalid bad_header
      | some h ↦ parse_as now h head body sig
    ]
  ]
  parse_parts now [] = invalid segments
  parse_parts now (a ∷ []) = invalid segments
  parse_parts now (a ∷ b ∷ []) = invalid segments
  parse_parts now (a ∷ b ∷ c ∷ d ∷ rest) = invalid segments

  -- Parse
  unfoldable pub parse : ℤ → List ℕ → Parsed
  unfolding split parse_parts
  parse now token = parse_parts now (split token)
