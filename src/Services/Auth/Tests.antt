-- ===== src/Services/Auth/Tests.antt =====
-- The theorems about accounts at work on a world with one user.
use text2image.Base.{
  ℕ, suc, ◌≡◌, ◌≢◌, refl, ℤ, pos, Bool, true, false, some, none, [], ◌∷◌, Text, bytes, ok, err,
  Action, arith, eqb, eqb_refl, if◌then◌else◌,
}
use text2image.Models.User.{User, JsonBody, default_user}
use text2image.Errors.Repo.{RepoError, internal}
use text2image.Services.Effects.{returned}
use text2image.Services.Auth.{
  AuthPorts, TokenClaims, register_user, change_password, refresh, refresh_token_revoked,
  user_not_found,
}
use text2image.Services.Auth.Laws.{register_user-insert, change_password-update}
use text2image.Services.Auth.Refresh.{Keeper, in_memory, refresh_twice}

-- The world counts the names that were given to tokens.
abbrev sample_user : User
sample_user = record default_user { id = pos 7; username = 97 ∷ 110 ∷ 110 ∷ [] }

abbrev old_claims : TokenClaims
old_claims = record { jti = 111 ∷ []; user_id = pos 7 }

abbrev sample_auth : AuthPorts ℕ
sample_auth = record {
  find_by_username = λ name w. (ok (some sample_user), w);
  find_by_email = λ email w. (ok none, w);
  find_by_id = λ id w. (ok (some sample_user), w);
  exists_by_username = λ name w. (ok false, w);
  exists_by_email = λ email w. (ok false, w);
  insert_user = λ user w. (ok (pos 8), w);
  update_password = λ id hash w. (ok true, w);
  store_token = λ jti id ttl w. (ok tt, w);
  consume_token = λ jti w. (ok none, w);
  revoke_token = λ jti w. (ok tt, w);
  revoke_user_tokens = λ id w. (err user_not_found, w);
  hash_password = λ text w. (ok text, w);
  verify_password = λ text hash. ok true;
  verify_refresh_token = λ token w. (ok old_claims, w);
  generate_jti = λ w. (ok (110 ∷ w ∷ []), suc w);
  create_token = λ id name role w. (ok name, w);
  issue_refresh_token = λ id jti w. (ok jti, w);
  refresh_token_expires_in_seconds = λ w. (ok (pos 60), w);
  access_token_expires_in_seconds = λ w. (ok (pos 5), w);
}

-- Each member is the same text of six letters.
abbrev sample_body : JsonBody
sample_body = record {
  text_member = λ key. some (ok (97 ∷ 64 ∷ 98 ∷ 46 ∷ 99 ∷ 99 ∷ []));
  integer_member = λ key. none;
  bool_member = λ key. none;
  value_or_empty = λ key. ok (97 ∷ 64 ∷ 98 ∷ 46 ∷ 99 ∷ 99 ∷ []);
}

abbrev ticking : ℕ → ℕ
ticking w = w

abbrev sample_keeper : Keeper ℕ
sample_keeper = record {
  tokens = record { key = 111 ∷ []; user_id = pos 7; expires_at = 100 } ∷ [];
  rest = 0;
}

names_differ : (w : ℕ) → 110 ∷ w ∷ [] ≢ 111 ∷ []
names_differ w e = ground arith

refresh_twice_example :
    let used = (refresh (in_memory ticking sample_auth) sample_body sample_keeper).1 in
    (refresh (in_memory ticking sample_auth) sample_body (record used { rest = 3 })).0
    ≡ err (returned refresh_token_revoked)
refresh_twice_example =
    refresh_twice ticking sample_auth sample_body (97 ∷ 64 ∷ 98 ∷ 46 ∷ 99 ∷ 99 ∷ []) old_claims refl
      refl (λ v. refl) (record { yields = names_differ }) sample_keeper 3

-- A repository that refuses every user of another role.
abbrev strict_insert : User → Action ℕ RepoError ℤ
strict_insert user w =
    if eqb user.role (bytes "user")
    then (ok (pos 8), w)
    else (err (record { kind = internal; message = [] }), w)

register_user-insert_example :
    register_user (record sample_auth { insert_user = strict_insert }) sample_body 0
    ≡ register_user sample_auth sample_body 0
register_user-insert_example =
    register_user-insert sample_auth strict_insert (λ u w e. rw (e, eqb_refl (bytes "user")) refl)
      sample_body 0

abbrev never_updates : ℤ → Text → Action ℕ RepoError Bool
never_updates id hash w = (ok false, w)

change_password-update_example :
    change_password (record sample_auth { update_password = never_updates }) (pos 7) sample_body 0
    ≡ change_password sample_auth (pos 7) sample_body 0
change_password-update_example =
    change_password-update sample_auth never_updates (λ id w. (user_not_found, w, refl)) (pos 7)
      sample_body 0
