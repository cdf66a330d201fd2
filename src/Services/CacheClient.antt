-- ===== src/Services/CacheClient.antt =====
-- `RedisCacheClient` of Backend/src/services/cache_client.cpp: a cache that a failure turns off. No
-- operation throws, so each is a function to a value and the new state.
pub mod Laws
mod Tests
use text2image.Base.{
  ℤ, pos, Bool, true, false, not, Option, none, some, List, [], ◌∷◌, ◌++◌, Text, bytes, Result, ok,
  err, Action, if◌then◌else◌, ◌>>=◌, pure,
}
use text2image.Services.Effects.{Exception, std_error}
use text2image.Services.CacheKeys.{decimal}
use text2image.Services.Redis.{Commands, RedisConnection, run_command, rethrow}
use text2image.Services.Redis.Numbers.{stoll}

-- The connection, `available_`, and the members of `CacheConfig` that the operations use.
pub record CacheClient (S : Type 0) : Type 0 where
  pub link : RedisConnection S
  pub cache_available : Bool
  pub key_prefix : Text
  pub version_key_ttl : ℤ

abbrev pub caught_failure :
    {S A : Type 0} → A → CacheClient S → Result Exception A × RedisConnection S → A × CacheClient S
caught_failure a c (ok b, link) = (b, record c { link = link })
caught_failure a c (err e, link) = (a, record c { link = link; cache_available = false })

-- `if (!isAvailable()) return a; try { ... } catch (const std::exception&) { available_ = false;
-- return a; }`
unfoldable pub guarded :
    {S A : Type 0} → A → Action (RedisConnection S) Exception A → CacheClient S → A × CacheClient S
guarded a m c =
    let answered = caught_failure a c (m c.link) in if c.cache_available then answered else (a, c)

unfoldable pub cache_key : {S : Type 0} → CacheClient S → Text → Text
cache_key c key = c.key_prefix ++ key

unfoldable pub version_key : {S : Type 0} → CacheClient S → Text → Text → Text
version_key c ns identifier = c.key_prefix ++ (bytes "ver:" ++ (ns ++ (bytes ":" ++ identifier)))

abbrev or_text_error : {S A : Type 0} → Result Text A × S → Result Exception A × S
or_text_error (ok a, s) = (ok a, s)
or_text_error (err what, s) = (err (std_error what), s)

module _ {S : Type 0} (r : Commands S) where
  -- The bodies of the try blocks.
  abbrev pub get_body : Text → CacheClient S → Action (RedisConnection S) Exception (Option Text)
  get_body key c = rethrow (run_command (λ s. (r.get_value (cache_key c key) s, s)))

  abbrev pub setex_body :
      Text → Text → ℤ → CacheClient S → Action (RedisConnection S) Exception Bool
  setex_body key value ttl c =
      rethrow (run_command (λ s. (true, r.setex (cache_key c key) value ttl s)))

  abbrev pub del_body : Text → CacheClient S → Action (RedisConnection S) Exception Bool
  del_body key c = rethrow (run_command (r.del (cache_key c key)))

  -- The script: an error of `INCR` ends it.
  abbrev pub bump_script : Text → ℤ → S → Result Exception (Option ℤ) × S
  bump_script key ttl s = bumped (r.incr key s)
    where
      bumped : Result Text ℤ × S → Result Exception (Option ℤ) × S
      bumped (ok v, s') = (ok (some v), r.expire key ttl s')
      bumped (err what, s') = (err (std_error what), s')

  -- What a script answers.
  abbrev pub answered_by :
      {A : Type 0} → Result Exception A → Action (RedisConnection S) Exception A
  answered_by o link = (o, link)

  abbrev pub bump_body :
      Text → Text → CacheClient S → Action (RedisConnection S) Exception (Option ℤ)
  bump_body ns identifier c = do
    answer ← rethrow (run_command (bump_script (version_key c ns identifier) c.version_key_ttl))
    answered_by answer

  abbrev pub version_of : Option Text → Result Exception ℤ
  version_of none = ok (pos 0)
  version_of (some value) = stoll value

  abbrev pub version_body : Text → Text → CacheClient S → Action (RedisConnection S) Exception ℤ
  version_body ns identifier c = do
    value ← rethrow (run_command (λ s. (r.get_value (version_key c ns identifier) s, s)))
    answered_by (version_of value)

  unfoldable pub cache_get : Text → CacheClient S → Option Text × CacheClient S
  unfolding guarded cache_key run_command
  cache_get key c = guarded none (get_body key c) c

  unfoldable pub cache_setex : Text → Text → ℤ → CacheClient S → Bool × CacheClient S
  unfolding guarded cache_key run_command
  cache_setex key value ttl c = guarded false (setex_body key value ttl c) c

  unfoldable pub cache_del : Text → CacheClient S → Bool × CacheClient S
  unfolding guarded cache_key run_command
  cache_del key c = guarded false (del_body key c) c

  unfoldable pub bump_version : Text → Text → CacheClient S → Option ℤ × CacheClient S
  unfolding guarded version_key run_command
  bump_version ns identifier c = guarded none (bump_body ns identifier c) c

  unfoldable pub get_version : Text → Text → CacheClient S → ℤ × CacheClient S
  unfolding guarded version_key run_command stoll
  get_version ns identifier c = guarded (pos 0) (version_body ns identifier c) c
