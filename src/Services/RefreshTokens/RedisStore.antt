-- ===== src/Services/RefreshTokens/RedisStore.antt =====
-- `RedisRefreshTokenStore` of Backend/src/services/refresh_token_store.cpp: the user of each token,
-- and the set of the tokens of each user, in Redis.
pub mod Cycle
mod Tests
use text2image.Base.{
  ℤ, pos, Bool, true, false, Option, none, some, List, [], ◌∷◌, ◌++◌, Text, bytes, Result, ok, err,
  Action, ◌>>=◌, ◌>>◌, pure, if◌then◌else◌, String,
}
use text2image.Errors.{ServiceError, service_error, service_unavailable}
use text2image.Services.Effects.{Exception}
use text2image.Services.CacheKeys.{decimal}
use text2image.Services.Redis.{
  Commands, RedisConnection, set_ex, get_key, get_del, del_key, set_add, set_remove, set_members,
  expire_key,
}
use text2image.Services.Redis.Numbers.{stoll}
use text2image.Services.RefreshTokens.{at_least_one}

unfoldable pub refresh_token_key : Text → Text
refresh_token_key jti = bytes "zimage:refresh:" ++ jti

unfoldable pub user_refresh_set_key : ℤ → Text
unfolding decimal
user_refresh_set_key user_id = bytes "zimage:refresh:user:" ++ decimal user_id

abbrev pub refresh_store_unavailable : String → ServiceError
refresh_store_unavailable message =
    service_error service_unavailable "refresh_store_unavailable" message

abbrev pub or_unavailable : {C A : Type 0} → Result Exception A × C → Result ServiceError A × C
or_unavailable (ok a, c) = (ok a, c)
or_unavailable (err e, c) = (err (refresh_store_unavailable "refresh token store failed"), c)

-- The guard and the handler that every operation has; what Redis and `std::stoll` throw is a
-- `std::exception`.
unfoldable pub if_available :
    {S A : Type 0}
    → Action (RedisConnection S) Exception A
    → Action (RedisConnection S) ServiceError A
if_available m c =
    let answered = or_unavailable (m c) in
    if c.available
    then answered
    else (err (refresh_store_unavailable "refresh token store is unavailable"), c)

abbrev pub parsed_user_id : {S : Type 0} → Text → Action (RedisConnection S) Exception ℤ
parsed_user_id value c = (stoll value, c)

module _ {S : Type 0} (r : Commands S) where
  unfoldable pub store_token : Text → ℤ → ℤ → Action (RedisConnection S) ServiceError (Unit {0})
  unfolding if_available set_ex set_add expire_key decimal refresh_token_key user_refresh_set_key
  store_token jti user_id ttl = if_available (do
    set_ex r (refresh_token_key jti) (decimal user_id) (pos (at_least_one ttl))
    set_add r (user_refresh_set_key user_id) jti
    expire_key r (user_refresh_set_key user_id) (pos (at_least_one ttl)))

  unfoldable pub consumed_by : Text → Option Text → Action (RedisConnection S) Exception (Option ℤ)
  unfolding stoll set_remove user_refresh_set_key
  consumed_by jti none = pure none
  consumed_by jti (some value) = do
    user_id ← parsed_user_id value
    set_remove r (user_refresh_set_key user_id) jti
    pure (some user_id)

  unfoldable pub consume_token : Text → Action (RedisConnection S) ServiceError (Option ℤ)
  unfolding if_available get_del consumed_by refresh_token_key
  consume_token jti =
      if_available (do value ← get_del r (refresh_token_key jti); consumed_by jti value)

  abbrev pub removed_from_user :
      Text → Option Text → Action (RedisConnection S) Exception (Unit {0})
  removed_from_user jti none = pure tt
  removed_from_user jti (some value) = do
    user_id ← parsed_user_id value
    set_remove r (user_refresh_set_key user_id) jti

  unfoldable pub revoke_token : Text → Action (RedisConnection S) ServiceError (Unit {0})
  unfolding if_available get_key del_key refresh_token_key
  revoke_token jti = if_available (do
    value ← get_key r (refresh_token_key jti)
    removed_from_user jti value
    gone ← del_key r (refresh_token_key jti)
    pure tt)

  unfoldable pub del_tokens : List Text → Action (RedisConnection S) Exception (Unit {0})
  unfolding del_key refresh_token_key
  del_tokens [] = pure tt
  del_tokens (jti ∷ jtis) =
      let rest = del_tokens jtis in do gone ← del_key r (refresh_token_key jti); rest

  unfoldable pub revoke_user_tokens : ℤ → Action (RedisConnection S) ServiceError (Unit {0})
  unfolding if_available set_members del_key del_tokens user_refresh_set_key
  revoke_user_tokens user_id = if_available (do
    jtis ← set_members r (user_refresh_set_key user_id)
    del_tokens jtis
    gone ← del_key r (user_refresh_set_key user_id)
    pure tt)
