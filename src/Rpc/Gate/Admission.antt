-- ===== src/Rpc/Gate/Admission.antt =====
-- What a call has that the gate lets through.
use distributed_image_proces.Prelude.{
  AllEntries, AllEntries-lookup, ℕ, String, ◌≡◌, refl, sym, ap, ◌∙◌, ◌⊎◌, subst, true, Option, none,
  some, List, [], ◌∷◌, ◌++◌, arith, if◌then◌else◌, Bool-cases, Option-cases, inl, inr, lookup, ℤ,
}
use distributed_image_proces.Auth.Granting.{Granted, authorize-Granted}
use distributed_image_proces.Auth.{Policy, Permission, authorize}
use distributed_image_proces.Auth.Tokens.{Claims, Codec, Verifier, Parsed, valid, invalid, parse}
use distributed_image_proces.Auth.Tokens.Forgery.{Accepted, parse-Accepted}
use distributed_image_proces.Ratelimit.{Floats, Limiter, allow_one}
use distributed_image_proces.Rpc.Gate.{
  Call, Verdict, Refusal, admitted, refused, rate_limited, bearer, cut_prefix, verdict_of,
  check_header, authenticate, check_policy, method_perms, permit, limit, gate_as, gate,
}

cut_prefix-some : (ps text rest : List ℕ) → cut_prefix ps text ≡ some rest → text ≡ ps ++ rest
unfolding cut_prefix
cut_prefix-some [] text rest h = ground (arith, h)
cut_prefix-some (p ∷ ps) [] rest h = cc
cut_prefix-some (p ∷ ps) (b ∷ bs) rest h = ground (arith, cut_prefix-some ps bs rest)

-- The permission that each method of the service requires.
pub data Requires : String → Permission → Type 0 where
  submits : Requires "/coordinator.v1.Coordinator/SubmitJob" "job:submit"
  gets : Requires "/coordinator.v1.Coordinator/GetJob" "job:read"
  lists : Requires "/coordinator.v1.Coordinator/ListJobs" "job:read"
  watches : Requires "/coordinator.v1.Coordinator/WatchJob" "job:read"
  polls : Requires "/coordinator.v1.Coordinator/PollTasks" "task:lease"
  starts : Requires "/coordinator.v1.Coordinator/StartTask" "task:lease"
  reports : Requires "/coordinator.v1.Coordinator/ReportResult" "task:report"

method_perms-Requires : AllEntries Requires method_perms
unfolding method_perms
method_perms-Requires = (submits, (gets, (lists, (watches, (polls, (starts, (reports, tt)))))))

module _ (k : Codec) (v : Verifier) (policy : Policy) where
  -- The call brings a token that Parse accepts with these claims, and one of their roles has the
  -- permission that the method requires.
  pub record Permitted (call : Call) (c : Claims) : Type 0 where
    pub token : List ℕ
    pub others : List (List ℕ)
    pub brought : call.metadata ≡ some ((bearer ++ token) ∷ others)
    pub accepted : Accepted k v call.now token c
    pub perm : Permission
    pub required : Requires call.method perm
    pub granted : Granted policy c.roles perm

  verdict_of-admitted :
      (r : Parsed) (c : Claims) → verdict_of k v policy r ≡ admitted c → r ≡ valid c
  unfolding verdict_of
  verdict_of-admitted (valid c') c h = cc
  verdict_of-admitted (invalid e) c h = absurd (cc h)

  check_header-admitted :
      (now : ℤ) (vals : List (List ℕ)) (c : Claims)
      → check_header k v policy now vals ≡ admitted c
      → (token : List ℕ) × (others : List (List ℕ)) × (vals ≡ (bearer ++ token) ∷ others)
        × Accepted k v now token c
  unfolding check_header
  check_header-admitted now [] c h = absurd (cc h)
  check_header-admitted now (val ∷ vals) c h = elim (Option-cases (cut_prefix bearer val)) [
    | inl nothing ↦ absurd (ground (arith, nothing, h))
    | inr (token, e) ↦
        let read : verdict_of k v policy (parse k v now token) ≡ admitted c =
          ground (arith, e, h) in
        (
          token,
          vals,
          ap (λ l. l ∷ vals) (cut_prefix-some bearer val token e),
          parse-Accepted k v now token c (verdict_of-admitted (parse k v now token) c read),
        )
  ]

  check_policy-admitted :
      (method : String) (c c' : Claims)
      → check_policy k v policy method c ≡ admitted c'
      → (c ≡ c')
        × (perm : Permission) × (lookup method method_perms ≡ some perm)
        × (authorize (some c.roles) perm policy ≡ true)
  unfolding check_policy
  check_policy-admitted method c c' h = elim (Option-cases (lookup method method_perms)) [
    | inl nothing ↦ absurd (ground (arith, nothing, h))
    | inr (perm, e) ↦ elim (Bool-cases (authorize (some c.roles) perm policy)) [
      | inl may ↦ (ground (arith, e, may, h), perm, e, may)
      | inr not_allowed ↦ absurd (ground (arith, e, not_allowed, h))
    ]
  ]

  authenticate-admitted :
      (call : Call) (c : Claims)
      → authenticate k v policy call ≡ admitted c
      → (token : List ℕ) × (others : List (List ℕ)) × (call.metadata
          ≡ some ((bearer ++ token) ∷ others))
        × Accepted k v call.now token c
  unfolding authenticate
  authenticate-admitted call c h = elim (Option-cases call.metadata) [
    | inl nothing ↦ absurd (ground (arith, nothing, h))
    | inr (vals, e) ↦
        let read : check_header k v policy call.now vals ≡ admitted c = ground (arith, e, h) in
        let (token, others, s, a) = check_header-admitted call.now vals c read in
        (token, others, e ∙ ap some s, a)
  ]

  -- The verdict that a chain of two checks starts from.
  Verdict-cases :
      (x : Verdict) → ((c : Claims) × (x ≡ admitted c)) ⊎ ((r : Refusal) × (x ≡ refused r))
  Verdict-cases (admitted c) = inl (c, refl)
  Verdict-cases (refused r) = inr (r, refl)

  permit-Permitted :
      (call : Call) (c : Claims) → permit k v policy call ≡ admitted c → Permitted call c
  unfolding permit
  permit-Permitted call c h = elim (Verdict-cases (authenticate k v policy call)) [
    | inr (r, e) ↦ absurd (ground (arith, e, h))
    | inl (c', e) ↦
        let checked : check_policy k v policy call.method c' ≡ admitted c = ground (arith, e, h) in
        let (same, perm, required, granted) = check_policy-admitted call.method c' c checked in
        let (token, others, brought, a) = authenticate-admitted call c' e in
        record {
          token = token;
          others = others;
          brought = brought;
          accepted = subst (λ x. Accepted k v call.now token x) same a;
          perm = perm;
          required =
              AllEntries-lookup Requires call.method perm method_perms method_perms-Requires
                required;
          granted =
              subst (λ x. Granted policy x.roles perm) same
                (authorize-Granted policy perm c'.roles granted);
        }
  ]

  gate_as-admitted :
      (f : Floats) (x : Verdict) (clock : ℕ) (l : Option (Limiter f)) (c : Claims)
      → (gate_as k v policy f x clock l).0 ≡ admitted c
      → x ≡ admitted c
  unfolding gate_as limit
  gate_as-admitted f (refused r) clock l c h = h
  gate_as-admitted f (admitted c') clock none c h = h
  gate_as-admitted f (admitted c') clock (some l) c h =
      elim (Bool-cases (allow_one f clock c'.tenant l).0) [
        | inl may ↦ sym (ap (λ b. if b then admitted c' else refused rate_limited) may) ∙ h
        | inr full ↦
            absurd (cc (sym (ap (λ b. if b then admitted c' else refused rate_limited) full) ∙ h))
      ]

  -- A handler runs only for a call that brings a bearer token which Parse accepts, with the claims of
  -- that token, and only if one of their roles is granted the wildcard or the permission that the
  -- method requires: job:submit for SubmitJob, job:read for GetJob, ListJobs and WatchJob, task:lease for
  -- PollTasks and StartTask, and task:report for ReportResult.
  pub gate-Permitted :
      (f : Floats) (call : Call) (l : Option (Limiter f)) (c : Claims)
      → (gate k v policy f call l).0 ≡ admitted c
      → Permitted call c
  unfolding gate
  gate-Permitted f call l c h =
      permit-Permitted call c (gate_as-admitted f (permit k v policy call) call.clock l c h)
