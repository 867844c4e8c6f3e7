-- ===== src/Auth/Tokens/Times.antt =====
-- The times of a token, on whole numbers without a bound.
use distributed_image_proces.Prelude.{
  ℕ, suc, zero, ◌+◌, ◌<◌, ◌≡◌, ◌≢◌, refl, sym, ap, ◌∙◌, Bool, Bool-cases, true, false, inl, inr,
  arith, not, ◌&&◌, if◌then◌else◌, ℤ, pos, negsuc, ltb_ℤ, int64_max,
}
use distributed_image_proces.Auth.Tokens.{
  Claims, Parsed, valid, invalid, expired, too_early, is_zero, add_seconds, sub_seconds,
  check_times,
}

-- `b` is more than `s` seconds after `a`.
abbrev pub MoreThan : ℕ → ℤ → ℤ → Type 0
MoreThan s (pos a) (pos b) = a + s < b
MoreThan s (pos a) (negsuc b) = ⊥
MoreThan s (negsuc a) (pos b) = s < b + suc a
MoreThan s (negsuc a) (negsuc b) = b + s < a

-- The claims have an expiry, and it is more than the leeway ago.
pub record Expired (now : ℤ) (leeway : ℕ) (c : Claims) : Type 0 where
  pub set : c.expires_at ≢ pos 0
  pub past : MoreThan leeway c.expires_at now

-- The claims have a first moment, and it is more than the leeway ahead.
pub record TooEarly (now : ℤ) (leeway : ℕ) (c : Claims) : Type 0 where
  pub set : c.not_before ≢ pos 0
  pub ahead : MoreThan leeway now c.not_before

-- The int64 sums of the claims' times and the leeway do not overflow.
abbrev NoLaterThan : ℕ → ℤ → Type 0
NoLaterThan s (pos a) = a + s < int64_max
NoLaterThan s (negsuc a) = Unit

abbrev NoEarlierThan : ℕ → ℤ → Type 0
NoEarlierThan s (pos b) = Unit
NoEarlierThan s (negsuc b) = b + s < int64_max

pub record NoWrap (leeway : ℕ) (c : Claims) : Type 0 where
  pub above : NoLaterThan leeway c.expires_at
  pub below : NoEarlierThan leeway c.not_before

-- What a verifier says of claims whose signature it trusts.
pub data Judged (now : ℤ) (leeway : ℕ) (c : Claims) : Parsed → Type 0 where
  in_time : ¬ Expired now leeway c → ¬ TooEarly now leeway c → Judged now leeway c (valid c)
  is_late : Expired now leeway c → Judged now leeway c (invalid expired)
  is_early :
      ¬ Expired now leeway c → TooEarly now leeway c → Judged now leeway c (invalid too_early)

-- The tests of the code, and the orders that they decide. A sum that wraps is too small, and a
-- difference that wraps too large, so that a passed test still tells the truth.
not_past : (now e : ℤ) (s : ℕ) → ltb_ℤ (add_seconds e s) now ≡ false → ¬ MoreThan s e now
unfolding add_seconds
not_past (pos n) (pos a) s h = λ m. absurd (ground (arith, h, m))
not_past (pos n) (negsuc a) s h = λ m. absurd (ground (arith, h, m))
not_past (negsuc n) (pos a) s h = λ m. m
not_past (negsuc n) (negsuc a) s h = λ m. absurd (ground (arith, h, m))

past_of :
    (now e : ℤ) (s : ℕ) → NoLaterThan s e → ltb_ℤ (add_seconds e s) now ≡ true → MoreThan s e now
unfolding add_seconds
past_of (pos n) (pos a) s fits h = ground (arith, h, fits)
past_of (pos n) (negsuc a) s fits h = ground (arith, h)
past_of (negsuc n) (pos a) s fits h = absurd (ground (arith, h, fits))
past_of (negsuc n) (negsuc a) s fits h = ground (arith, h)

not_ahead : (now b : ℤ) (s : ℕ) → ltb_ℤ now (sub_seconds b s) ≡ false → ¬ MoreThan s now b
unfolding sub_seconds
not_ahead (pos n) (pos b) s h = λ m. absurd (ground (arith, h, m))
not_ahead (pos n) (negsuc b) s h = λ m. m
not_ahead (negsuc n) (pos b) s h = λ m. absurd (ground (arith, h, m))
not_ahead (negsuc n) (negsuc b) s h = λ m. absurd (ground (arith, h, m))

ahead_of :
    (now b : ℤ) (s : ℕ) → NoEarlierThan s b → ltb_ℤ now (sub_seconds b s) ≡ true → MoreThan s now b
unfolding sub_seconds
ahead_of (pos n) (pos b) s fits h = ground (arith, h)
ahead_of (pos n) (negsuc b) s fits h = absurd (ground (arith, h, fits))
ahead_of (negsuc n) (pos b) s fits h = ground (arith, h)
ahead_of (negsuc n) (negsuc b) s fits h = ground (arith, h, fits)

is_zero_eq : (e : ℤ) → is_zero e ≡ true → e ≡ pos 0
is_zero_eq (pos zero) h = refl
is_zero_eq (pos (suc n)) h = absurd (cc h)
is_zero_eq (negsuc n) h = absurd (cc h)

is_zero_ne : (e : ℤ) → is_zero e ≡ false → e ≢ pos 0
is_zero_ne e h = λ p. absurd (cc (sym (ap is_zero p) ∙ h))

-- The two guards of Parse.
unfoldable late_guard : ℤ → ℕ → Claims → Bool
unfolding add_seconds
late_guard now s c = not (is_zero c.expires_at) && ltb_ℤ (add_seconds c.expires_at s) now

unfoldable early_guard : ℤ → ℕ → Claims → Bool
unfolding sub_seconds
early_guard now s c = not (is_zero c.not_before) && ltb_ℤ now (sub_seconds c.not_before s)

late_guard-not_Expired :
    (now : ℤ) (s : ℕ) (c : Claims) → late_guard now s c ≡ false → ¬ Expired now s c
unfolding late_guard
late_guard-not_Expired now s c h x = elim (Bool-cases (is_zero c.expires_at)) [
  | inl z ↦ absurd (x.set (is_zero_eq c.expires_at z))
  | inr z ↦ not_past now c.expires_at s (ground (arith, h, z)) x.past
]

late_guard-Expired :
    (now : ℤ) (s : ℕ) (c : Claims) → NoWrap s c → late_guard now s c ≡ true → Expired now s c
unfolding late_guard
late_guard-Expired now s c fits h = record {
  set = is_zero_ne c.expires_at (ground (arith, h));
  past = past_of now c.expires_at s fits.above (ground (arith, h));
}

early_guard-not_TooEarly :
    (now : ℤ) (s : ℕ) (c : Claims) → early_guard now s c ≡ false → ¬ TooEarly now s c
unfolding early_guard
early_guard-not_TooEarly now s c h x = elim (Bool-cases (is_zero c.not_before)) [
  | inl z ↦ absurd (x.set (is_zero_eq c.not_before z))
  | inr z ↦ not_ahead now c.not_before s (ground (arith, h, z)) x.ahead
]

early_guard-TooEarly :
    (now : ℤ) (s : ℕ) (c : Claims) → NoWrap s c → early_guard now s c ≡ true → TooEarly now s c
unfolding early_guard
early_guard-TooEarly now s c fits h = record {
  set = is_zero_ne c.not_before (ground (arith, h));
  ahead = ahead_of now c.not_before s fits.below (ground (arith, h));
}

check_times-guards :
    (now : ℤ) (s : ℕ) (c : Claims)
    → check_times now s c ≡ (
        if late_guard now s c
        then invalid expired
        else if early_guard now s c
        then invalid too_early
        else valid c)
unfolding check_times late_guard early_guard
check_times-guards now s c = refl

pub check_times-Judged :
    (now : ℤ) (s : ℕ) (c : Claims) → NoWrap s c → Judged now s c (check_times now s c)
check_times-Judged now s c fits = elim (Bool-cases (late_guard now s c)) [
  | inl l ↦ rw (check_times-guards now s c, l) (is_late (late_guard-Expired now s c fits l))
  | inr l ↦
      let fresh = late_guard-not_Expired now s c l in
      elim (Bool-cases (early_guard now s c)) [
        | inl e ↦
            rw (check_times-guards now s c, l, e)
              (is_early fresh (early_guard-TooEarly now s c fits e))
        | inr e ↦
            rw (check_times-guards now s c, l, e)
              (in_time fresh (early_guard-not_TooEarly now s c e))
      ]
]

-- Claims that pass the tests of the times.
pub check_times-valid :
    (now : ℤ) (s : ℕ) (c c' : Claims)
    → check_times now s c ≡ valid c'
    → (c ≡ c') × (¬ Expired now s c) × (¬ TooEarly now s c)
check_times-valid now s c c' h = elim (Bool-cases (late_guard now s c)) [
  | inl l ↦ absurd (cc (sym (check_times-guards now s c) ∙ h, l))
  | inr l ↦ elim (Bool-cases (early_guard now s c)) [
    | inl e ↦ absurd (cc (sym (check_times-guards now s c) ∙ h, l, e))
    | inr e ↦ (
      ground (arith, sym (check_times-guards now s c) ∙ h, l, e),
      late_guard-not_Expired now s c l,
      early_guard-not_TooEarly now s c e,
    )
  ]
]
