-- ===== src/Services/RefreshTokens/RedisStore/Cycle.antt =====
-- The life of one token in the Redis store, on a server that keeps to its documentation.
use text2image.Base.{◌≡◌, refl, ◌∙◌, ℤ, pos, ◌<ℤ◌, arith, none, some, Text, ok}
use text2image.Services.CacheKeys.{decimal}
use text2image.Services.Redis.{
  Commands, RedisConfig, set_ex, get_key, get_del, del_key, set_add, set_remove, expire_key,
  run_command,
}
use text2image.Services.Redis.Numbers.{IsInt64, stoll-decimal}
use text2image.Services.Redis.Laws.{connected}
use text2image.Services.RefreshTokens.{at_least_one}
use text2image.Services.RefreshTokens.RedisStore.{
  store_token, consume_token, consumed_by, revoke_token, if_available, refresh_token_key,
  user_refresh_set_key,
}

-- What Redis documents of strings beside sets: SETEX with a positive time to live sets a string, DEL
-- removes it, the commands on sets and a positive time to live leave the strings.
pub record KeepsStrings {S : Type 0} (r : Commands S) : Type 0 where
  pub setex_value :
      (k v : Text) (t : ℤ) (s : S) → pos 0 <ℤ t → r.get_value k (r.setex k v t s) ≡ some v
  pub del_removes : (k : Text) (s : S) → r.get_value k (r.del k s).1 ≡ none
  pub sadd_keeps : (j k v : Text) (s : S) → r.get_value j (r.sadd k v s) ≡ r.get_value j s
  pub srem_keeps : (j k v : Text) (s : S) → r.get_value j (r.srem k v s) ≡ r.get_value j s
  pub expire_keeps :
      (j k : Text) (t : ℤ) (s : S) → pos 0 <ℤ t → r.get_value j (r.expire k t s) ≡ r.get_value j s

at_least_one-positive : (ttl : ℤ) → pos 0 <ℤ pos (at_least_one ttl)
at_least_one-positive ttl = ground arith

module _ {S : Type 0} (r : Commands S) (strings : KeepsStrings r) (config : RedisConfig) where
  store_token-found :
      (jti : Text) (user_id ttl : ℤ) (s : S)
      → (t : S) × (store_token r jti user_id ttl (connected config s) ≡ (ok tt, connected config t))
        × (r.get_value (refresh_token_key jti) t ≡ some (decimal user_id))
  unfolding store_token if_available set_ex set_add expire_key run_command
  store_token-found jti user_id ttl s = (
    _,
    refl,
    strings.expire_keeps _ _ _ _ (at_least_one-positive ttl)
        ∙ strings.sadd_keeps _ _ _ _
        ∙ strings.setex_value _ _ _ _ (at_least_one-positive ttl),
  )

  consume_token-found :
      (jti : Text) (user_id : ℤ) (s : S)
      → IsInt64 user_id
      → r.get_value (refresh_token_key jti) s ≡ some (decimal user_id)
      → (t : S) × (consume_token r jti (connected config s)
          ≡ (ok (some user_id), connected config t))
        × (r.get_value (refresh_token_key jti) t ≡ none)
  unfolding consume_token consumed_by if_available get_del set_remove run_command
  consume_token-found jti user_id s bound held = (
    r.srem (user_refresh_set_key user_id) jti (r.del (refresh_token_key jti) s).1,
    rw (held, stoll-decimal user_id bound) refl,
    strings.srem_keeps _ _ _ _ ∙ strings.del_removes _ _,
  )

  consume_token-missing :
      (jti : Text) (s : S)
      → r.get_value (refresh_token_key jti) s ≡ none
      → consume_token r jti (connected config s) ≡ (ok none, connected config s)
  unfolding consume_token consumed_by if_available get_del run_command
  consume_token-missing jti s lost = rw lost refl

  revoke_token-found :
      (jti : Text) (user_id : ℤ) (s : S)
      → IsInt64 user_id
      → r.get_value (refresh_token_key jti) s ≡ some (decimal user_id)
      → (t : S) × (revoke_token r jti (connected config s) ≡ (ok tt, connected config t))
        × (r.get_value (refresh_token_key jti) t ≡ none)
  unfolding revoke_token if_available get_key set_remove del_key run_command
  revoke_token-found jti user_id s bound held = (
    (r.del (refresh_token_key jti) (r.srem (user_refresh_set_key user_id) jti s)).1,
    rw (held, stoll-decimal user_id bound) refl,
    strings.del_removes _ _,
  )

  -- A token that is stored in Redis is good for its user once: the first consumption returns the
  -- user, the second nothing; and it is good for nobody after a revocation instead. Nothing expires
  -- meanwhile, nobody else writes, and no command fails.
  pub store_token-once :
      (jti : Text) (user_id ttl : ℤ) (s : S)
      → IsInt64 user_id
      → let c = (store_token r jti user_id ttl (connected config s)).1 in
        let used = consume_token r jti c in
        let gone = revoke_token r jti c in
        (used.0 ≡ ok (some user_id))
        × ((consume_token r jti used.1).0 ≡ ok none)
        × (gone.0 ≡ ok tt)
        × ((consume_token r jti gone.1).0 ≡ ok none)
  store_token-once jti user_id ttl s bound =
      let t = store_token-found jti user_id ttl s in
      let used = consume_token-found jti user_id t.0 bound t.2 in
      let gone = revoke_token-found jti user_id t.0 bound t.2 in
      (
        rw (t.1, used.1) refl,
        rw (t.1, used.1, consume_token-missing jti used.0 used.2) refl,
        rw (t.1, gone.1) refl,
        rw (t.1, gone.1, consume_token-missing jti gone.0 gone.2) refl,
      )
