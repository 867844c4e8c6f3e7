-- ===== src/Rpc/Gate.antt =====
-- internal/rpc/interceptor.go: AuthInterceptor, over the token verifier, the role policy and the rate
-- limiter. A call is what the interceptor sees of it: the metadata, the method and the two clocks. The
-- handler, and the context that carries the claims to it, are the verdict `admitted`.
pub mod Isolation
pub mod Admission
mod Tests
use Prim.Native.String.{◌++◌ as append}
use distributed_image_proces.Prelude.{
  ℕ, String, ◌==◌, Option, none, some, List, [], ◌∷◌, if◌then◌else◌, lookup, insert, ℤ,
}
use distributed_image_proces.Auth.{
  Permission, Policy, authorize, job_submit, job_read, task_lease, task_report,
}
use distributed_image_proces.Auth.Tokens.{
  Claims, Codec, Verifier, TokenError, Parsed, valid, invalid, parse,
}
use distributed_image_proces.Ratelimit.{Floats, Limiter, allow_one}

-- `metadata` holds the values of "authorization", or `none` where the context has no metadata.
pub record Call : Type 0 where
  pub metadata : Option (List (List ℕ))
  pub method : String
  pub now : ℤ
  pub clock : ℕ

pub data Refusal : Type 0 where
  missing_metadata missing_authorization not_bearer : Refusal
  invalid_token : TokenError → Refusal
  no_policy not_permitted rate_limited : Refusal

pub data Verdict : Type 0 where
  admitted : Claims → Verdict
  refused : Refusal → Verdict

-- The methods and the permissions that they require.
unfoldable pub method_perms : List (String × Permission)
unfolding insert
method_perms =
    let svc = append "/coordinator.v1.Coordinator/" in
    (svc "SubmitJob", job_submit)
    ∷ (svc "GetJob", job_read)
    ∷ (svc "ListJobs", job_read)
    ∷ (svc "WatchJob", job_read)
    ∷ (svc "PollTasks", task_lease)
    ∷ (svc "StartTask", task_lease)
    ∷ (svc "ReportResult", task_report)
    ∷ []

-- "Bearer "
abbrev pub bearer : List ℕ
bearer = 66 ∷ 101 ∷ 97 ∷ 114 ∷ 101 ∷ 114 ∷ 32 ∷ []

-- `strings.CutPrefix`
unfoldable pub cut_prefix : List ℕ → List ℕ → Option (List ℕ)
cut_prefix [] text = some text
cut_prefix (p ∷ ps) [] = none
cut_prefix (p ∷ ps) (b ∷ bs) = let rest = cut_prefix ps bs in if p == b then rest else none

module _ (k : Codec) (v : Verifier) (policy : Policy) where
  unfoldable pub verdict_of : Parsed → Verdict
  verdict_of (valid c) = admitted c
  verdict_of (invalid e) = refused (invalid_token e)

  unfoldable pub check_header : ℤ → List (List ℕ) → Verdict
  unfolding cut_prefix verdict_of
  check_header now [] = refused missing_authorization
  check_header now (val ∷ vals) = elim (cut_prefix bearer val) [
    | none ↦ refused not_bearer
    | some token ↦ verdict_of (parse k v now token)
  ]

  -- authenticate
  unfoldable pub authenticate : Call → Verdict
  unfolding check_header
  authenticate call = elim call.metadata [
    | none ↦ refused missing_metadata
    | some vals ↦ check_header call.now vals
  ]

  -- The authorization in gate.
  unfoldable pub check_policy : String → Claims → Verdict
  unfolding method_perms
  check_policy method c = elim (lookup method method_perms) [
    | none ↦ refused no_policy
    | some perm ↦ if authorize (some c.roles) perm policy then admitted c else refused not_permitted
  ]

  -- gate up to the rate limit.
  unfoldable pub permit : Call → Verdict
  unfolding authenticate check_policy
  permit call = elim (authenticate call) [
    | admitted c ↦ check_policy call.method c
    | refused r ↦ refused r
  ]

  module _ (f : Floats) where
    -- The rate limit in gate; `none` is a nil limiter.
    unfoldable pub limit : ℕ → Claims → Option (Limiter f) → Verdict × Option (Limiter f)
    unfolding allow_one
    limit clock c none = (admitted c, none)
    limit clock c (some l) =
        let r = allow_one f clock c.tenant l in
        (if r.0 then admitted c else refused rate_limited, some r.1)

    -- gate, by what the checks before the rate limit say.
    unfoldable pub gate_as : Verdict → ℕ → Option (Limiter f) → Verdict × Option (Limiter f)
    unfolding limit
    gate_as (admitted c) clock l = limit clock c l
    gate_as (refused r) clock l = (refused r, l)

    -- gate
    unfoldable pub gate : Call → Option (Limiter f) → Verdict × Option (Limiter f)
    unfolding permit gate_as
    gate call l = gate_as (permit call) call.clock l

    -- Calls one after another, with their verdicts.
    unfoldable pub serve : List Call → Option (Limiter f) → List (Call × Verdict)
    unfolding gate
    serve [] l = []
    serve (call ∷ calls) l = let r = gate call l in (call, r.0) ∷ serve calls r.1
