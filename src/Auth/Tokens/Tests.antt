-- ===== src/Auth/Tokens/Tests.antt =====
-- A token over a toy codec, and the theorems at it.
use distributed_image_proces.Prelude.{
  ℕ, ◌+◌, ◌-◌, ◌≡◌, refl, ap, some, List, [], ◌∷◌, map, arith, pos, string_discrete,
}
use distributed_image_proces.Auth.Tokens.{
  Claims, Codec, Verifier, valid, invalid, expired, check_times, sign, parse_parts, parse,
}
use distributed_image_proces.Auth.Tokens.Times.{NoWrap, Judged}
use distributed_image_proces.Auth.Tokens.RoundTrip.{Dotless, Lawful, parse-sign}
use distributed_image_proces.Auth.Tokens.Forgery.{Accepted, parse-Accepted}

abbrev pub ann : Claims
ann = record {
  subject = "ann";
  issuer = "idp";
  tenant = "t1";
  roles = "viewer" ∷ [];
  issued_at = pos 10;
  not_before = pos 0;
  expires_at = pos 90;
}

abbrev pub toy : Codec
toy = record {
  encode = map (λ b. b + 47);
  decode = λ bytes. some (map (λ b. b - 47) bytes);
  put_header = λ h. 1 ∷ [];
  get_header = λ bytes. some (record { alg = "HS256"; typ = "JWT" });
  put_claims = λ c. 2 ∷ 3 ∷ [];
  get_claims = λ bytes. some ann;
  hmac = λ secret input. secret;
}

abbrev pub checker : Verifier
checker = record { secret = 5 ∷ 6 ∷ []; leeway = 3 }

toy-Dotless : (bytes : List ℕ) → Dotless (map (λ b. b + 47) bytes)
toy-Dotless [] = tt
toy-Dotless (b ∷ bs) = (ground arith, toy-Dotless bs)

toy_back : (bytes : List ℕ) → map (λ b. b - 47) (map (λ b. b + 47) bytes) ≡ bytes
toy_back [] = refl
toy_back (b ∷ bs) = (λ i. (let same : b + 47 - 47 ≡ b = omega arith in same) i ∷ toy_back bs i)

toy-Lawful : Lawful toy ann
toy-Lawful = record {
  dotless = toy-Dotless;
  decode-encode = λ bytes. ap some (toy_back bytes);
  header_back = refl;
  claims_back = refl;
}

ann-NoWrap : NoWrap 3 ann
ann-NoWrap = record { above = omega arith; below = tt }

parse-sign_example : Judged (pos 95) 3 ann (parse toy checker (pos 95) (sign toy checker ann))
parse-sign_example = parse-sign toy checker ann (pos 95) toy-Lawful ann-NoWrap

late : check_times (pos 95) 3 ann ≡ invalid expired
unfolding check_times
late = refl

reads : parse toy checker (pos 92) (sign toy checker ann) ≡ valid ann
unfolding parse parse_parts sign string_discrete
reads = refl

parse-Accepted_example : Accepted toy checker (pos 92) (sign toy checker ann) ann
parse-Accepted_example = parse-Accepted toy checker (pos 92) (sign toy checker ann) ann reads
