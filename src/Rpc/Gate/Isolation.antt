-- ===== src/Rpc/Gate/Isolation.antt =====
-- The calls of one tenant among those of the others.
use distributed_image_proces.Prelude.{
  ℕ, String, ◌≡◌, ◌≢◌, refl, sym, ap, ◌∙◌, ite, if_pos, if_neg, Bool, true, false, Option, none,
  some, List, [], ◌∷◌, if◌then◌else◌, Bool-cases, inl, inr, string_discrete, subst, lookup,
  lookup-insert, pos,
}
use distributed_image_proces.Auth.{Policy}
use distributed_image_proces.Auth.Tokens.{Claims, Codec, Verifier}
use distributed_image_proces.Ratelimit.{
  Floats, Limiter, Bucket, refill, bucket_of, take_tokens, allow_some, allow_n, allow_one,
}
use distributed_image_proces.Rpc.Gate.{
  Call, Verdict, admitted, refused, rate_limited, permit, limit, gate_as, gate, serve,
}

module _ (f : Floats) where
  -- Two limiters of the same settings that have the same bucket for a tenant.
  record Agree (t : String) (l l' : Limiter f) : Type 0 where
    rates : l.rate ≡ l'.rate
    bursts : l.burst ≡ l'.burst
    own : lookup t l.buckets ≡ lookup t l'.buckets

  abbrev AgreeIf : String → Option (Limiter f) → Option (Limiter f) → Type 0
  AgreeIf t none none = Unit
  AgreeIf t none (some l') = ⊥
  AgreeIf t (some l) none = ⊥
  AgreeIf t (some l) (some l') = Agree t l l'

  AgreeIf-self : (t : String) (l : Option (Limiter f)) → AgreeIf t l l
  AgreeIf-self t none = tt
  AgreeIf-self t (some l) = record { rates = refl; bursts = refl; own = refl }

  -- The bucket after a call depends on the bucket before it and the settings.
  abbrev next_bucket : ℕ → Limiter f → Option (Bucket f) → Bool × Bucket f
  next_bucket clock l b =
      take_tokens f (f.of_int (pos 1)) (refill f clock l (bucket_of f clock b l))

  next_bucket_agree :
      (clock : ℕ) (l l' : Limiter f) (b : Option (Bucket f))
      → l.rate ≡ l'.rate
      → l.burst ≡ l'.burst
      → next_bucket clock l b ≡ next_bucket clock l' b
  unfolding refill bucket_of take_tokens
  next_bucket_agree clock l l' none r q =
      λ i. next_bucket clock (record l { rate = r i; burst = q i }) none
  next_bucket_agree clock l l' (some b) r q =
      λ i. next_bucket clock (record l { rate = r i; burst = q i }) (some b)

  allow_one-verdict :
      (clock : ℕ) (key : String) (l : Limiter f)
      → (allow_one f clock key l).0 ≡ (next_bucket clock l (lookup key l.buckets)).0
  unfolding allow_one allow_n allow_some
  allow_one-verdict clock key l = refl

  lookup-allow_one :
      (clock : ℕ) (t key : String) (l : Limiter f)
      → lookup t (allow_one f clock key l).1.buckets
        ≡ ite
            (string_discrete t key)
            (some (next_bucket clock l (lookup key l.buckets)).1)
            (lookup t l.buckets)
  unfolding allow_one allow_n allow_some
  lookup-allow_one clock t key l = lookup-insert t key _ l.buckets

  -- A call for another tenant.
  allow_one-other :
      (clock : ℕ) (t key : String) (l l' : Limiter f)
      → t ≢ key
      → Agree t l l'
      → Agree t (allow_one f clock key l).1 l'
  unfolding allow_one allow_n allow_some
  allow_one-other clock t key l l' n a = record {
    rates = a.rates;
    bursts = a.bursts;
    own = lookup-allow_one clock t key l ∙ if_neg (string_discrete t key) n _ _ ∙ a.own;
  }

  next_buckets :
      (clock : ℕ) (t : String) (l l' : Limiter f)
      → Agree t l l'
      → next_bucket clock l (lookup t l.buckets) ≡ next_bucket clock l' (lookup t l'.buckets)
  next_buckets clock t l l' a =
      next_bucket_agree clock l l' (lookup t l.buckets) a.rates a.bursts
      ∙ ap (next_bucket clock l') a.own

  -- A call for the tenant itself.
  allow_one-own :
      (clock : ℕ) (t : String) (l l' : Limiter f)
      → Agree t l l'
      → ((allow_one f clock t l).0 ≡ (allow_one f clock t l').0)
        × Agree t (allow_one f clock t l).1 (allow_one f clock t l').1
  unfolding allow_one allow_n allow_some
  allow_one-own clock t l l' a =
      let same = next_buckets clock t l l' a in
      (
        ap (λ r. r.0) same,
        record {
          rates = a.rates;
          bursts = a.bursts;
          own =
              lookup-allow_one clock t t l
              ∙ if_pos (string_discrete t t) refl _ _
              ∙ ap (λ r. some r.1) same
              ∙ sym (lookup-allow_one clock t t l' ∙ if_pos (string_discrete t t) refl _ _);
        },
      )

  limit-other :
      (clock : ℕ) (t : String) (c : Claims) (l l' : Option (Limiter f)) (k : Codec) (v : Verifier)
      (p : Policy)
      → t ≢ c.tenant
      → AgreeIf t l l'
      → AgreeIf t (limit k v p f clock c l).1 l'
  unfolding limit
  limit-other clock t c none none k v p n a = tt
  limit-other clock t c none (some l') k v p n a = elim a [ ]
  limit-other clock t c (some l) none k v p n a = elim a [ ]
  limit-other clock t c (some l) (some l') k v p n a = allow_one-other clock t c.tenant l l' n a

  limit-own :
      (clock : ℕ) (c : Claims) (l l' : Option (Limiter f)) (k : Codec) (v : Verifier) (p : Policy)
      → AgreeIf c.tenant l l'
      → ((limit k v p f clock c l).0 ≡ (limit k v p f clock c l').0)
        × AgreeIf c.tenant (limit k v p f clock c l).1 (limit k v p f clock c l').1
  unfolding limit
  limit-own clock c none none k v p a = (refl, tt)
  limit-own clock c none (some l') k v p a = elim a [ ]
  limit-own clock c (some l) none k v p a = elim a [ ]
  limit-own clock c (some l) (some l') k v p a =
      let (verdict, agree) = allow_one-own clock c.tenant l l' a in
      (ap (λ b. if b then admitted c else refused rate_limited) verdict, agree)

-- The tenant that a verdict is about.
abbrev is_of : String → Verdict → Bool
is_of t (admitted c) = ite (string_discrete c.tenant t) true false
is_of t (refused r) = false

module _ (k : Codec) (v : Verifier) (policy : Policy) (t : String) where
  -- The calls of a tenant that come as far as the rate limit.
  abbrev is_own : Call → Bool
  is_own call = is_of t (permit k v policy call)

  abbrev pub own_calls : List Call → List Call
  own_calls [] = []
  own_calls (call ∷ calls) = let rest = own_calls calls in if is_own call then call ∷ rest else rest

  abbrev pub own_verdicts : List (Call × Verdict) → List (Call × Verdict)
  own_verdicts [] = []
  own_verdicts ((call, r) ∷ rs) =
      let rest = own_verdicts rs in if is_own call then (call, r) ∷ rest else rest

  module _ (f : Floats) where
    gate_as-other :
        (x : Verdict) (clock : ℕ) (l l' : Option (Limiter f))
        → is_of t x ≡ false
        → AgreeIf f t l l'
        → AgreeIf f t (gate_as k v policy f x clock l).1 l'
    unfolding gate_as
    gate_as-other (refused r) clock l l' o a = a
    gate_as-other (admitted c) clock l l' o a =
        limit-other f clock t c l l' k v policy
          (λ (e : t ≡ c.tenant).
            cc (sym (if_pos (string_discrete c.tenant t) (sym e) true false) ∙ o))
          a

    gate_as-own :
        (x : Verdict) (clock : ℕ) (l l' : Option (Limiter f))
        → is_of t x ≡ true
        → AgreeIf f t l l'
        → ((gate_as k v policy f x clock l).0 ≡ (gate_as k v policy f x clock l').0)
          × AgreeIf f t (gate_as k v policy f x clock l).1 (gate_as k v policy f x clock l').1
    unfolding gate_as
    gate_as-own (refused r) clock l l' o a = absurd (cc o)
    gate_as-own (admitted c) clock l l' o a = elim (string_discrete c.tenant t) [
      | no n ↦ absurd (cc (sym (if_neg (string_discrete c.tenant t) n true false) ∙ o))
      | yes e ↦
          let r = limit k v policy f clock c in
          subst (λ x. ((r l).0 ≡ (r l').0) × AgreeIf f x (r l).1 (r l').1) e
            (limit-own f clock c l l' k v policy (subst (λ x. AgreeIf f x l l') (sym e) a))
    ]

    serve-own_calls :
        (calls : List Call) (l l' : Option (Limiter f))
        → AgreeIf f t l l'
        → own_verdicts (serve k v policy f calls l) ≡ serve k v policy f (own_calls calls) l'
    unfolding serve gate
    serve-own_calls [] l l' a = refl
    serve-own_calls (call ∷ calls) l l' a = elim (Bool-cases (is_own call)) [
      | inl own ↦
          let (verdict, agree) = gate_as-own (permit k v policy call) call.clock l l' own a in
          rw own (
            (λ i.
              (call, verdict i)
              ∷ serve-own_calls calls (gate_as k v policy f (permit k v policy call) call.clock l).1
                  (gate_as k v policy f (permit k v policy call) call.clock l').1 agree i))
      | inr other ↦ rw other (
          serve-own_calls calls (gate_as k v policy f (permit k v policy call) call.clock l).1 l'
            (gate_as-other (permit k v policy call) call.clock l l' other a))
    ]

    -- Whatever calls come in, and in which order: those of a tenant that get as far as the rate limit
    -- have the verdicts that they would have if no other call had come.
    pub serve-isolated :
        (calls : List Call) (l : Option (Limiter f))
        → own_verdicts (serve k v policy f calls l) ≡ serve k v policy f (own_calls calls) l
    serve-isolated calls l = serve-own_calls calls l l (AgreeIf-self f t l)
