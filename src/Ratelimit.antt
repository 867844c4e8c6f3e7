-- ===== src/Ratelimit.antt =====
-- internal/ratelimit/tokenbucket.go: the token buckets. float64 and its operations are a parameter, and
-- the clock is an argument of each call. Tokens is a read for metrics that only brings a bucket up to
-- date, and is left out.
use distributed_image_proces.Prelude.{
  ℕ, String, Bool, true, false, Option, none, some, List, [], if◌then◌else◌, lookup, insert, ℤ, pos,
  ltb_ℤ,
}

pub record Floats : Type 1 where
  pub Float : Type 0
  pub of_int : ℤ → Float
  pub add : Float → Float → Float
  pub sub : Float → Float → Float
  pub mul : Float → Float → Float
  pub min : Float → Float → Float
  -- a < b, a <= b
  pub lt : Float → Float → Bool
  pub le : Float → Float → Bool
  -- `now.Sub(last).Seconds()`
  pub seconds : ℕ → ℕ → Float

module _ (f : Floats) where
  open f use {Float}

  pub record Bucket : Type 0 where
    pub tokens : Float
    pub last : ℕ

  pub record Limiter : Type 0 where
    pub rate : Float
    pub burst : Float
    pub buckets : List (String × Bucket)

  -- New
  unfoldable pub new_limiter : Float → ℤ → Limiter
  new_limiter rate burst =
      let b = f.of_int burst in
      record {
        rate = if f.le rate (f.of_int (pos 0)) then f.of_int (pos 1) else rate;
        burst = if f.le b (f.of_int (pos 0)) then f.of_int (pos 1) else b;
        buckets = [];
      }

  -- The tokens that have accrued since the last call.
  unfoldable pub refill : ℕ → Limiter → Bucket → Bucket
  refill now l b =
      let elapsed = f.seconds now b.last in
      if f.lt (f.of_int (pos 0)) elapsed
      then record { tokens = f.min l.burst (f.add b.tokens (f.mul elapsed l.rate)); last = now }
      else b

  -- The bucket of a key, new and full if it has none.
  unfoldable pub bucket_of : ℕ → Option Bucket → Limiter → Bucket
  bucket_of now none l = record { tokens = l.burst; last = now }
  bucket_of now (some b) l = b

  -- The answer for a bucket that is up to date, and the bucket after it.
  unfoldable pub take_tokens : Float → Bucket → Bool × Bucket
  take_tokens need b =
      if f.le need b.tokens then (true, record b { tokens = f.sub b.tokens need }) else (false, b)

  -- AllowN for a number above 0.
  unfoldable pub allow_some : ℕ → String → Float → Limiter → Bool × Limiter
  unfolding refill bucket_of take_tokens
  allow_some now key need l =
      let r = take_tokens need (refill now l (bucket_of now (lookup key l.buckets) l)) in
      (r.0, record l { buckets = insert key r.1 l.buckets })

  -- AllowN
  unfoldable pub allow_n : ℕ → String → ℤ → Limiter → Bool × Limiter
  unfolding allow_some
  allow_n now key n l = if ltb_ℤ (pos 0) n then allow_some now key (f.of_int n) l else (true, l)

  -- Allow
  unfoldable pub allow_one : ℕ → String → Limiter → Bool × Limiter
  unfolding allow_n
  allow_one now key l = allow_n now key (pos 1) l
