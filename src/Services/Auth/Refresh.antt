-- ===== src/Services/Auth/Refresh.antt =====
-- `AuthService::refresh` over the refresh token store in memory
-- (`InMemoryRefreshTokenStore` of Backend/src/services/refresh_token_store.cpp).
use text2image.Base.{
  ◌≡◌, ◌≢◌, refl, ℤ, Bool, true, false, not, Bool-cases, inl, inr, Option, none, some, find?, Text,
  bytes, is_empty, eqb, eqb_iff, Result, ok, err, Action, ◌>>=◌,
}
use text2image.Utils.Chrono.{Time}
use text2image.Models.User.{User, JsonBody}
use text2image.Errors.{ServiceError}
use text2image.Errors.Repo.{RepoError}
use text2image.Services.Effects.{
  Exception, Failure, returned, call, compute, or_return, or_error, let_through, returned_error,
}
use text2image.Services.RefreshTokens.{Store, store, consume, revoke, revoke_user, has_key}
use text2image.Services.RefreshTokens.Laws.{find?-keep-none, consumed_none, consume-lacks}
use text2image.Services.Yields.{
  IsOutcome, Yields, Any, Preserves, bind-Preserves, pure-Preserves, bind-both,
}
use text2image.Services.Auth.{
  AuthPorts, TokenClaims, refuse_if, or_service, refresh, refresh_consumed, issue_token_pair,
  refresh_token_revoked, is_revoked, invalid_refresh_token, enabled_user,
}

-- The store in memory beside the rest of the world, which tells the time.
pub record Keeper (V : Type 0) : Type 0 where
  pub tokens : Store
  pub rest : V

module _ {V : Type 0} (now : V → Time) (p : AuthPorts V) where
  abbrev lift : {E A : Type 0} → Action V E A → Action (Keeper V) E A
  lift m k = let outcome = m k.rest in (outcome.0, record k { rest = outcome.1 })

  -- The ports of the world, with the store in memory for the tokens.
  abbrev pub in_memory : AuthPorts (Keeper V)
  in_memory = record {
    find_by_username = λ name. lift (p.find_by_username name);
    find_by_email = λ email. lift (p.find_by_email email);
    find_by_id = λ id. lift (p.find_by_id id);
    exists_by_username = λ name. lift (p.exists_by_username name);
    exists_by_email = λ email. lift (p.exists_by_email email);
    insert_user = λ user. lift (p.insert_user user);
    update_password = λ id hash. lift (p.update_password id hash);
    store_token =
        λ jti id ttl k. (ok tt, record k { tokens = store (now k.rest) jti id ttl k.tokens });
    consume_token = λ jti k.
        let outcome = consume (now k.rest) jti k.tokens in
        (ok outcome.0, record k { tokens = outcome.1 });
    revoke_token = λ jti k. (ok tt, record k { tokens = revoke jti k.tokens });
    revoke_user_tokens = λ id k. (ok tt, record k { tokens = revoke_user id k.tokens });
    hash_password = λ text. lift (p.hash_password text);
    verify_password = p.verify_password;
    verify_refresh_token = λ token. lift (p.verify_refresh_token token);
    generate_jti = lift p.generate_jti;
    create_token = λ id name role. lift (p.create_token id name role);
    issue_refresh_token = λ id jti. lift (p.issue_refresh_token id jti);
    refresh_token_expires_in_seconds = lift p.refresh_token_expires_in_seconds;
    access_token_expires_in_seconds = lift p.access_token_expires_in_seconds;
  }

  -- No entry has this name.
  abbrev Lacks : Text → Keeper V → Type 0
  Lacks jti k = find? (has_key jti) k.tokens ≡ none

  module _ (jti : Text) where
    through :
        {A : Type 0} (o : Result Exception A) (k : Keeper V)
        → Lacks jti k
        → Lacks jti (let_through (o, k)).1
    through (ok a) k l = l
    through (err e) k l = l

    through_repo :
        {A : Type 0} (o : Result RepoError A) (k : Keeper V)
        → Lacks jti k
        → Lacks jti (returned_error (o, k)).1
    through_repo (ok a) k l = l
    through_repo (err e) k l = l

    lifted-Lacks : {A : Type 0} (m : Action V Exception A) → Preserves (Lacks jti) (call (lift m))
    unfolding call
    lifted-Lacks m = record { preserves = λ k l. through (m k.rest).0 _ l }

    repo-Lacks :
        {A : Type 0} (m : Action V RepoError A) → Preserves (Lacks jti) (or_return (lift m))
    unfolding or_return
    repo-Lacks m = record { preserves = λ k l. through_repo (m k.rest).0 _ l }

    -- A token of another name joins the store.
    store-Lacks :
        (other : Text) (id ttl : ℤ)
        → other ≢ jti
        → Preserves (Lacks jti) (or_service (in_memory.store_token other id ttl))
    unfolding or_service store revoke find?
    store-Lacks other id ttl differs = record {
      preserves = λ k l. elim (Bool-cases (eqb other jti)) [
        | inl e ↦ absurd (differs ((eqb_iff other jti).0 e))
        | inr e ↦ rw e (find?-keep-none (has_key jti) (λ x. not (has_key other x)) k.tokens l)
      ];
    }

    fresh-lifted :
        (Q : Text → Type 0) (o : Result Exception Text) (v : V) (k : Keeper V)
        → IsOutcome Q Any (o, v)
        → IsOutcome {S = Keeper V} {E = Failure} Q Any (let_through (o, k))
    fresh-lifted Q (ok a) v k q = q
    fresh-lifted Q (err e) v k q = tt

    issue-Lacks :
        Yields p.generate_jti (λ other. other ≢ jti) Any
        → (user : User) → Preserves (Lacks jti) (issue_token_pair in_memory user)
    unfolding issue_token_pair call
    issue-Lacks fresh user =
        bind-both (Lacks jti) (λ other. other ≢ jti) (call in_memory.generate_jti) _
          (record {
            yields = λ k. fresh-lifted _ (p.generate_jti k.rest).0 _ _ (fresh.yields k.rest);
          })
          (lifted-Lacks p.generate_jti)
          λ other differs.
            bind-Preserves (Lacks jti) (call in_memory.refresh_token_expires_in_seconds) _
              (lifted-Lacks p.refresh_token_expires_in_seconds)
              λ ttl.
                bind-Preserves (Lacks jti) (or_service (in_memory.store_token other user.id ttl)) _
                  (store-Lacks other user.id ttl differs)
                  λ u.
                    bind-Preserves (Lacks jti)
                      (call (in_memory.create_token user.id user.username user.role)) _
                      (lifted-Lacks (p.create_token user.id user.username user.role))
                      λ access.
                        bind-Preserves (Lacks jti)
                          (call (in_memory.issue_refresh_token user.id other)) _
                          (lifted-Lacks (p.issue_refresh_token user.id other))
                          λ token.
                            bind-Preserves (Lacks jti)
                              (call in_memory.access_token_expires_in_seconds) _
                              (lifted-Lacks p.access_token_expires_in_seconds)
                              λ seconds. pure-Preserves (Lacks jti) (record {
                                user = user;
                                access_token = access;
                                refresh_token = token;
                                expires_in = seconds;
                              })

    guard-Lacks : (b : Bool) (e : ServiceError) → Preserves (Lacks jti) (refuse_if b e)
    guard-Lacks true e = record { preserves = λ k l. l }
    guard-Lacks false e = record { preserves = λ k l. l }

    or_error-Lacks :
        (found : Option User) (e : ServiceError) → Preserves (Lacks jti) (or_error found e)
    unfolding or_error
    or_error-Lacks none e = record { preserves = λ k l. l }
    or_error-Lacks (some user) e = record { preserves = λ k l. l }

    consumed-Lacks :
        Yields p.generate_jti (λ other. other ≢ jti) Any
        → (claims : TokenClaims) (stored : Option ℤ)
        → Preserves (Lacks jti) (refresh_consumed in_memory claims stored)
    unfolding refresh_consumed
    consumed-Lacks fresh claims stored =
        bind-Preserves (Lacks jti)
          (refuse_if (is_revoked in_memory stored claims.user_id) refresh_token_revoked) _
          (guard-Lacks _ _)
          λ u.
            bind-Preserves (Lacks jti) (or_return (in_memory.find_by_id claims.user_id)) _
              (repo-Lacks (p.find_by_id claims.user_id))
              λ found.
                bind-Preserves (Lacks jti)
                  (or_error (enabled_user in_memory found) invalid_refresh_token) _
                  (or_error-Lacks _ _) λ user. issue-Lacks fresh user

  module _ (payload : JsonBody) (token : Text) (claims : TokenClaims)
      (read : payload.value_or_empty (bytes "refresh_token") ≡ ok token)
      (given : is_empty token ≡ false)
      (verified : (v : V) → p.verify_refresh_token token v ≡ (ok claims, v)) where
    refresh_lem :
        (k : Keeper V)
        → refresh in_memory payload k
          ≡ (or_service (in_memory.consume_token claims.jti) >>= refresh_consumed in_memory claims)
              k
    unfolding refresh compute or_service
    refresh_lem k = rw (read, given, verified k.rest) refl

    -- A refresh token is good for one refresh at most: after any use of it, also one that was refused
    -- or that failed on the way, and whatever happens in between to the rest of the world, the next
    -- refresh is refused because the token was revoked. The token's signature is verified each time,
    -- and no later token is given its name.
    pub refresh_twice :
        Yields p.generate_jti (λ other. other ≢ claims.jti) Any
        → (k : Keeper V) (v : V)
        → let used = (refresh in_memory payload k).1 in
          (refresh in_memory payload (record used { rest = v })).0
          ≡ err (returned refresh_token_revoked)
    unfolding or_service refresh_consumed
    refresh_twice fresh k v =
        let lacks : Lacks claims.jti (refresh in_memory payload k).1 = rw (refresh_lem k) (
          (consumed-Lacks claims.jti fresh claims _).preserves _
            (consume-lacks k.tokens claims.jti (now k.rest))) in
        rw
          (
            refresh_lem (record ((refresh in_memory payload k).1) { rest = v }),
            consumed_none (now v) claims.jti (refresh in_memory payload k).1.tokens lacks,
          )
          refl
