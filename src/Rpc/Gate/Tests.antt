-- ===== src/Rpc/Gate/Tests.antt =====
-- Calls of two tenants at a gate, and the theorems at them.
use distributed_image_proces.Prelude.{
  ℕ, ◌+◌, ◌-◌, ◌*◌, ◌≡◌, refl, some, List, [], ◌∷◌, ◌++◌, map, ltb, leb, if◌then◌else◌, ite, ◌==◌,
  pos, pos_part, string_discrete, lookup, insert,
}
use distributed_image_proces.Cache.Ids.{contains}
use distributed_image_proces.Auth.{default_policy, authorize}
use distributed_image_proces.Auth.Tokens.{Claims, Codec, Verifier, parse}
use distributed_image_proces.Ratelimit.{Floats, Limiter, new_limiter, allow_one}
use distributed_image_proces.Rpc.Gate.{
  Call, admitted, refused, rate_limited, bearer, gate, serve, method_perms,
}
use distributed_image_proces.Rpc.Gate.Isolation.{own_calls, own_verdicts, serve-isolated}
use distributed_image_proces.Rpc.Gate.Admission.{Permitted, gate-Permitted}

-- Whole numbers as floats.
abbrev whole_floats : Floats
whole_floats = record {
  Float = ℕ;
  of_int = pos_part;
  add = λ a b. a + b;
  sub = λ a b. a - b;
  mul = λ a b. a * b;
  min = λ a b. if leb a b then a else b;
  lt = ltb;
  le = leb;
  seconds = λ now last. now - last;
}

abbrev claims_of : List ℕ → Claims
claims_of bytes = record {
  subject = "s";
  issuer = "idp";
  tenant = elim bytes [ [] ↦ "t1" | b ∷ bs ↦ if b == 1 then "t1" else "t2" ];
  roles = "viewer" ∷ [];
  issued_at = pos 0;
  not_before = pos 0;
  expires_at = pos 0;
}

-- The claims are named by one byte; the codec of texts without a dot is the identity.
abbrev toy : Codec
toy = record {
  encode = λ bytes. bytes;
  decode = some;
  put_header = λ h. 1 ∷ [];
  get_header = λ bytes. some (record { alg = "HS256"; typ = "JWT" });
  put_claims = λ c. ite (string_discrete c.tenant "t1") (1 ∷ []) (2 ∷ []);
  get_claims = λ bytes. some (claims_of bytes);
  hmac = λ secret input. secret;
}

abbrev checker : Verifier
checker = record { secret = 5 ∷ []; leeway = 0 }

-- A call for the tenant of this byte.
abbrev call_of : ℕ → Call
call_of b = record {
  metadata = some ((bearer ++ (1 ∷ 46 ∷ b ∷ 46 ∷ 5 ∷ [])) ∷ []);
  method = "/coordinator.v1.Coordinator/GetJob";
  now = pos 9;
  clock = 9;
}

abbrev one_token : Limiter whole_floats
unfolding new_limiter
one_token = new_limiter whole_floats 1 (pos 1)

first_admitted :
    (gate toy checker default_policy whole_floats (call_of 1) (some one_token)).0
    ≡ admitted (claims_of (1 ∷ []))
unfolding gate method_perms parse authorize default_policy allow_one new_limiter one_token lookup
    insert string_discrete contains
first_admitted = refl

second_limited :
    map
      (λ r. r.1)
      (serve toy checker default_policy whole_floats
        (call_of 1 ∷ call_of 2 ∷ call_of 1 ∷ [])
        (some one_token))
    ≡ admitted (claims_of (1 ∷ [])) ∷ admitted (claims_of (2 ∷ [])) ∷ refused rate_limited ∷ []
unfolding serve gate method_perms parse authorize default_policy allow_one new_limiter one_token
    lookup insert string_discrete contains
second_limited = refl

gate-Permitted_example : Permitted toy checker default_policy (call_of 1) (claims_of (1 ∷ []))
gate-Permitted_example =
    gate-Permitted toy checker default_policy whole_floats (call_of 1) (some one_token)
      (claims_of (1 ∷ [])) first_admitted

serve-isolated_example :
    own_verdicts toy checker default_policy "t2" (
      serve toy checker default_policy whole_floats
        (call_of 1 ∷ call_of 2 ∷ call_of 1 ∷ [])
        (some one_token))
    ≡ serve toy checker default_policy whole_floats
        (own_calls toy checker default_policy "t2" (call_of 1 ∷ call_of 2 ∷ call_of 1 ∷ []))
        (some one_token)
serve-isolated_example =
    serve-isolated toy checker default_policy "t2" whole_floats
      (call_of 1 ∷ call_of 2 ∷ call_of 1 ∷ []) (some one_token)
