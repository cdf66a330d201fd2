-- ===== src/Services/RateLimiter/Bounds.antt =====
-- How many requests a token bucket lets through.
use text2image.Base.{
  ℕ, ◌+◌, ◌-◌, ◌*◌, ◌≤◌, leb, Bool, Bool-cases, inl, inr, ◌⊎◌, true, false, Option, none, some,
  List, [], ◌∷◌, ◌≡◌, refl, ℤ, pos_part, err, ap, ◌∙◌, arith,
}
use native.Mathlib.Nat.{add-mul, mul_comm, mul-le-mul_right, zero-mul}
use text2image.Services.RateLimiter.{
  Bucket, window_ms, time_to_live, tokens_now, decide, token_bucket, Reply, runs, no_script, breaks,
  Limiter, try_acquire, eval_token_bucket, rate_limit_refusal,
}
use text2image.Errors.{ServiceError}

-- The number of requests let through, for the milliseconds between one request and the next.
abbrev pub as_number : Bool → ℕ
as_number true = 1
as_number false = 0

abbrev pub sum : List ℕ → ℕ
sum [] = 0
sum (d ∷ ds) = d + sum ds

module _ (capacity window : ℕ) where
  unfoldable pub granted : ℕ → Option Bucket → List ℕ → ℕ
  granted now bucket [] = 0
  granted now bucket (delay ∷ delays) =
      let answer = token_bucket capacity window (now + delay) bucket in
      as_number answer.0 + granted (now + delay) answer.1 delays

  -- A bucket as the script leaves it: its times are those of one request that is over.
  abbrev IsPast : ℕ → Option Bucket → Type 0
  IsPast now none = Unit {0}
  IsPast now (some b) =
      (b.refreshed_at ≤ now) × (b.expires_at ≡ b.refreshed_at + time_to_live window)

  -- What the bucket holds if it never runs over.
  abbrev level : ℕ → Option Bucket → ℕ
  level now none = capacity * window_ms window
  level now (some b) = b.tokens + (now - b.refreshed_at) * capacity

  refill :
      (before now delay : ℕ)
      → before ≤ now
      → (now + delay - before) * capacity ≡ (now - before) * capacity + delay * capacity
  refill before now delay h = ap (λ n. n * capacity) (gap h) ∙ add-mul (now - before) delay capacity
    where
      gap : before ≤ now → now + delay - before ≡ now - before + delay
      gap h = omega (arith, h)

  window_refill :
      (elapsed : ℕ) → window_ms window ≤ elapsed → capacity * window_ms window ≤ elapsed * capacity
  window_refill elapsed h = rw (mul_comm capacity (window_ms window)) (mul-le-mul_right capacity h)

  no_refill : (now : ℕ) → (now - now) * capacity ≡ 0
  no_refill now = ap (λ n. n * capacity) (same now) ∙ zero-mul capacity
    where
      same : (n : ℕ) → n - n ≡ 0
      same n = omega arith

  -- The tokens at the next request are no more than the level and the refill since.
  tokens_now-level :
      (now delay : ℕ) (bucket : Option Bucket)
      → IsPast now bucket
      → tokens_now capacity window (now + delay) bucket ≤ level now bucket + delay * capacity
  unfolding tokens_now
  tokens_now-level now delay none h = omega arith
  tokens_now-level now delay (some b) h = elim (Bool-cases (leb b.expires_at (now + delay))) [
    | inl e ↦ rw e (omega (arith, refill b.refreshed_at now delay h.0, whole e))
    | inr e ↦ rw e (omega (arith, refill b.refreshed_at now delay h.0))
  ]
    where
      long : leb b.expires_at (now + delay) ≡ true → window_ms window ≤ now + delay - b.refreshed_at
      long e = ground (arith, h.1)

      whole :
          leb b.expires_at (now + delay) ≡ true
          → capacity * window_ms window ≤ (now + delay - b.refreshed_at) * capacity
      whole e = window_refill (now + delay - b.refreshed_at) (long e)

  decide-level :
      (now tokens : ℕ)
      → as_number (decide capacity window now tokens).0 * window_ms window
          + level now (decide capacity window now tokens).1
        ≤ tokens
  decide-level now tokens = elim (Bool-cases (leb (window_ms window) tokens)) [
    | inl e ↦ rw (e, no_refill now) (taken e)
    | inr e ↦ rw (e, no_refill now) (omega arith)
  ]
    where
      taken :
          leb (window_ms window) tokens ≡ true
          → 1 * window_ms window + (tokens - window_ms window + 0) ≤ tokens
      taken e = ground arith

  decide-IsPast : (now tokens : ℕ) → IsPast now (decide capacity window now tokens).1
  decide-IsPast now tokens = elim (Bool-cases (leb (window_ms window) tokens)) [
    | inl e ↦ rw e (omega arith, refl)
    | inr e ↦ rw e (omega arith, refl)
  ]

  granted-level :
      (delays : List ℕ) (now : ℕ) (bucket : Option Bucket)
      → IsPast now bucket
      → granted now bucket delays * window_ms window ≤ level now bucket + sum delays * capacity
  unfolding granted token_bucket
  granted-level [] now bucket h = omega arith
  granted-level (delay ∷ delays) now bucket h =
      let tokens = tokens_now capacity window (now + delay) bucket in
      let answer = decide capacity window (now + delay) tokens in
      let rest = granted-level delays (now + delay) answer.1 (decide-IsPast (now + delay) tokens) in
      rw
        (
          add-mul (as_number answer.0) (granted (now + delay) answer.1 delays) (window_ms window),
          add-mul delay (sum delays) capacity,
        )
        (omega
          (arith, tokens_now-level now delay bucket h, decide-level (now + delay) tokens, rest))

  -- However the requests for one key are spaced, a key that starts without a bucket lets through, in
  -- any run of requests, at most the capacity and what the capacity per window refills until the
  -- last of them: the number let through, times the window, is at most the capacity
  -- times the window and the time that passes, in milliseconds.
  pub granted-bound :
      (now : ℕ) (delays : List ℕ)
      → granted now none delays * window_ms window
        ≤ capacity * window_ms window + sum delays * capacity
  granted-bound now delays = granted-level delays now none tt

-- A limiter that is set to fail open answers with an error only where it counts Redis as available,
-- Redis ran the script, at once or after it was loaded, and the bucket of the key had no token left;
-- and the error is 429.
pub try_acquire-open :
    (first second : Reply) (now : ℕ) (capacity window : ℤ) (limiter : Limiter)
    (error : ServiceError)
    → (try_acquire true true first second now capacity window limiter).0 ≡ err error
    → (error ≡ rate_limit_refusal)
      × (limiter.available ≡ true)
      × ((first ≡ runs) ⊎ ((first ≡ no_script) × (second ≡ runs)))
      × ((token_bucket (pos_part capacity) (pos_part window) now limiter.bucket).0 ≡ false)
unfolding try_acquire eval_token_bucket
try_acquire-open runs second now capacity window limiter error h = ground arith
try_acquire-open no_script runs now capacity window limiter error h = ground arith
try_acquire-open no_script no_script now capacity window limiter error h = ground arith
try_acquire-open no_script breaks now capacity window limiter error h = ground arith
try_acquire-open breaks second now capacity window limiter error h = ground arith
