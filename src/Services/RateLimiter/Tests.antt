-- ===== src/Services/RateLimiter/Tests.antt =====
-- The limits at work.
use text2image.Base.{◌⊎◌, ◌+◌, ◌*◌, ◌≤◌, pos, ◌≡◌, refl, true, false, none, some, [], ◌∷◌, err}
use text2image.Services.RateLimiter.{
  window_ms, Limiter, runs, no_script, try_acquire, token_bucket, rate_limit_refusal,
  eval_token_bucket, tokens_now,
}
use text2image.Services.RateLimiter.Bounds.{granted, sum, granted-bound, try_acquire-open}

-- Five requests a minute, at once and after ten seconds.
granted-bound_example :
    granted 5 60 0 none (0 ∷ 0 ∷ 10000 ∷ []) * window_ms 60
    ≤ 5 * window_ms 60 + sum (0 ∷ 0 ∷ 10000 ∷ []) * 5
granted-bound_example = granted-bound 5 60 0 (0 ∷ 0 ∷ 10000 ∷ [])

abbrev drained : Limiter
drained = record {
  available = true;
  bucket = some (record { tokens = 0; refreshed_at = 100; expires_at = 120100 });
}

refuses : (try_acquire true true runs runs 100 (pos 5) (pos 60) drained).0 ≡ err rate_limit_refusal
unfolding try_acquire eval_token_bucket token_bucket tokens_now
refuses = refl

try_acquire-open_example :
    (rate_limit_refusal ≡ rate_limit_refusal)
    × (drained.available ≡ true)
    × ((runs ≡ runs) ⊎ ((runs ≡ no_script) × (runs ≡ runs)))
    × ((token_bucket 5 60 100 drained.bucket).0 ≡ false)
try_acquire-open_example =
    try_acquire-open runs runs 100 (pos 5) (pos 60) drained rate_limit_refusal refuses
