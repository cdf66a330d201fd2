-- ===== src/Services/RateLimiter.antt =====
-- The token bucket of Backend/src/services/rate_limiter.cpp: the script that runs inside Redis, one
-- key at a time, and `tryAcquire` around it. The script counts tokens in floating-point numbers; here
-- they are exact, in units of one token divided by the milliseconds of the window.
pub mod Bounds
mod Tests
use text2image.Base.{
  ℕ, zero, suc, ◌+◌, ◌-◌, ◌*◌, ltb, leb, min, max, ℤ, pos, pos_part, leb_ℤ, Bool, true, false, not,
  ◌||◌, Option, none, some, List, [], ◌∷◌, bytes, Result, ok, err, if◌then◌else◌,
}
use text2image.Errors.{ServiceError, service_error, service_unavailable, too_many_requests}

pub record Bucket : Type 0 where
  pub tokens : ℕ
  pub refreshed_at : ℕ  -- milliseconds, as is the next
  pub expires_at : ℕ

-- `window` in milliseconds
abbrev pub window_ms : ℕ → ℕ
window_ms window = window * 1000

-- `std::max(1, window.count() * 2)` in milliseconds
abbrev pub time_to_live : ℕ → ℕ
time_to_live window = max 1 (window * 2) * 1000

module _ (capacity window : ℕ) where
  -- The tokens that are there now; a key that is missing or has expired is a full bucket.
  unfoldable pub tokens_now : ℕ → Option Bucket → ℕ
  tokens_now now none = capacity * window_ms window
  tokens_now now (some b) =
      if leb b.expires_at now
      then capacity * window_ms window
      else min (capacity * window_ms window) (b.tokens + (now - b.refreshed_at) * capacity)

  abbrev pub bucket_left : ℕ → ℕ → Option Bucket
  bucket_left now tokens =
      some (record { tokens = tokens; refreshed_at = now; expires_at = now + time_to_live window })

  abbrev pub decide : ℕ → ℕ → Bool × Option Bucket
  decide now tokens =
      if leb (window_ms window) tokens
      then (true, bucket_left now (tokens - window_ms window))
      else (false, bucket_left now tokens)

  -- `kTokenBucketScript`
  unfoldable pub token_bucket : ℕ → Option Bucket → Bool × Option Bucket
  unfolding tokens_now
  token_bucket now bucket = decide now (tokens_now now bucket)

-- What Redis makes of EVALSHA: it runs the script, it does not know the script, or it fails.
pub data Reply : Type 0 where
  runs no_script breaks : Reply

-- The script is loaded and tried once more where it was not known.
unfoldable pub eval_token_bucket :
    Reply → Reply → Bool × Option Bucket → Option (Bool × Option Bucket)
eval_token_bucket runs second answer = some answer
eval_token_bucket no_script runs answer = some answer
eval_token_bucket no_script no_script answer = none
eval_token_bucket no_script breaks answer = none
eval_token_bucket breaks second answer = none

pub record Limiter : Type 0 where
  pub available : Bool
  pub bucket : Option Bucket

abbrev limiter_unavailable : ServiceError
limiter_unavailable =
    service_error service_unavailable "rate_limiter_unavailable" "rate limiter is unavailable"

abbrev pub rate_limit_refusal : ServiceError
rate_limit_refusal = too_many_requests (bytes "rate_limit_exceeded") (bytes "too many requests")

abbrev open_or_closed : Bool → Result ServiceError (Unit {0})
open_or_closed fail_open = if fail_open then ok tt else err limiter_unavailable

abbrev allow_or_refuse : Bool → Result ServiceError (Unit {0})
allow_or_refuse allowed = if allowed then ok tt else err rate_limit_refusal

abbrev acquired :
    Bool → Limiter → Option (Bool × Option Bucket) → Result ServiceError (Unit {0}) × Limiter
acquired fail_open limiter none = (open_or_closed fail_open, record limiter { available = false })
acquired fail_open limiter (some answer) =
    (allow_or_refuse answer.0, record limiter { bucket = answer.1 })

-- On one key: `enabled` and `fail_open` are the configuration's, the replies are what Redis makes of
-- the two calls.
unfoldable pub try_acquire :
    Bool → Bool → Reply → Reply → ℕ → ℤ → ℤ → Limiter → Result ServiceError (Unit {0}) × Limiter
unfolding eval_token_bucket token_bucket
try_acquire enabled fail_open first second now capacity window limiter =
    if not enabled || leb_ℤ capacity (pos 0) || leb_ℤ window (pos 0)
    then (ok tt, limiter)
    else if not limiter.available
    then (open_or_closed fail_open, limiter)
    else acquired fail_open limiter (
        eval_token_bucket first second
          (token_bucket (pos_part capacity) (pos_part window) now limiter.bucket))
