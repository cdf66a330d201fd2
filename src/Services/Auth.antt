-- ===== src/Services/Auth.antt =====
-- Backend/src/services/auth_service.cpp: accounts and token pairs. The user repository, the refresh
-- token store, the passwords' hashes and the tokens' signatures are given as ports, of the interfaces
-- Backend/include/database/i_user_repo.h and Backend/include/services/refresh_token_store.h.
pub mod Laws
pub mod Refresh
mod Tests
use text2image.Base.{
  ℕ, ltb, ℤ, pos, leb_ℤ, eqb_ℤ, Bool, true, false, not, ◌&&◌, ◌||◌, Option, none, some, [], ◌∷◌,
  Text, bytes, is_empty, length, if◌then◌else◌, Result, ok, err, Action, ◌>>=◌, ◌>>◌, pure, fail,
  guard,
}
use text2image.Models.User.{User, JsonBody, user_from_json, validate}
use text2image.Errors.{
  ServiceError, service_error, bad_request, unauthorized_status, not_found, conflict,
}
use text2image.Errors.Repo.{RepoError}
use text2image.Services.Effects.{Exception, Failure, returned, call, compute, or_return, or_error}

pub record TokenClaims : Type 0 where
  pub jti : Text
  pub user_id : ℤ

pub record AuthPorts (W : Type 0) : Type 0 where
  -- `IUserRepo`
  pub find_by_username : Text → Action W RepoError (Option User)
  pub find_by_email : Text → Action W RepoError (Option User)
  pub find_by_id : ℤ → Action W RepoError (Option User)
  pub exists_by_username : Text → Action W RepoError Bool
  pub exists_by_email : Text → Action W RepoError Bool
  pub insert_user : User → Action W RepoError ℤ
  pub update_password : ℤ → Text → Action W RepoError Bool
  -- `IRefreshTokenStore`
  pub store_token : Text → ℤ → ℤ → Action W ServiceError (Unit {0})
  pub consume_token : Text → Action W ServiceError (Option ℤ)
  pub revoke_token : Text → Action W ServiceError (Unit {0})
  pub revoke_user_tokens : ℤ → Action W ServiceError (Unit {0})
  -- `security` and `utils` of password_utils.h and jwt_utils.h
  pub hash_password : Text → Action W Exception Text
  pub verify_password : Text → Text → Result Exception Bool
  pub verify_refresh_token : Text → Action W ServiceError TokenClaims
  pub generate_jti : Action W Exception Text
  pub create_token : ℤ → Text → Text → Action W Exception Text
  pub issue_refresh_token : ℤ → Text → Action W Exception Text
  pub refresh_token_expires_in_seconds : Action W Exception ℤ
  pub access_token_expires_in_seconds : Action W Exception ℤ

-- `RefreshResult` and `LoginResult`
pub record TokenPair : Type 0 where
  pub user : User
  pub access_token : Text
  pub refresh_token : Text
  pub expires_in : ℤ

abbrev pub service_outcome : {W A : Type 0} → Result ServiceError A × W → Result Failure A × W
service_outcome (ok a, w) = (ok a, w)
service_outcome (err e, w) = (err (returned e), w)

-- `if (!result) return std::unexpected(result.error());`
unfoldable pub or_service : {W A : Type 0} → Action W ServiceError A → Action W Failure A
or_service m w = service_outcome (m w)

abbrev pub invalid_user_data : ServiceError
invalid_user_data = service_error bad_request "invalid_user_data" "invalid user data"

abbrev pub username_exists : ServiceError
username_exists = service_error conflict "username_exists" "username already exists"

abbrev pub email_exists : ServiceError
email_exists = service_error conflict "email_exists" "email already exists"

abbrev pub missing_credentials : ServiceError
missing_credentials = service_error bad_request "missing_credentials" "missing credentials"

abbrev pub invalid_credentials : ServiceError
invalid_credentials =
    service_error unauthorized_status "invalid_credentials" "invalid username or password"

abbrev pub missing_refresh_token : ServiceError
missing_refresh_token = service_error bad_request "missing_refresh_token" "missing refresh token"

abbrev pub refresh_token_revoked : ServiceError
refresh_token_revoked =
    service_error unauthorized_status "refresh_token_revoked" "refresh token has been revoked"

abbrev pub invalid_refresh_token : ServiceError
invalid_refresh_token =
    service_error unauthorized_status "invalid_refresh_token" "invalid refresh token"

abbrev pub unauthorized_user : ServiceError
unauthorized_user = service_error unauthorized_status "unauthorized" "unauthorized"

abbrev pub user_not_found : ServiceError
user_not_found = service_error not_found "user_not_found" "user not found"

abbrev pub missing_password : ServiceError
missing_password =
    service_error bad_request "missing_password" "old_password and new_password are required"

abbrev pub short_password : ServiceError
short_password =
    service_error bad_request "invalid_password" "new password must be at least 6 characters"

abbrev pub wrong_password : ServiceError
wrong_password = service_error unauthorized_status "invalid_password" "old password is incorrect"

-- `if (condition) return std::unexpected(error);`
abbrev pub refuse_if : {W : Type 0} → Bool → ServiceError → Action W Failure (Unit {0})
refuse_if b e = guard (not b) (returned e)

module _ {W : Type 0} (p : AuthPorts W) where
  unfoldable pub issue_token_pair : User → Action W Failure TokenPair
  unfolding call or_service
  issue_token_pair user = do
    jti ← call p.generate_jti
    ttl ← call p.refresh_token_expires_in_seconds
    or_service (p.store_token jti user.id ttl)
    access ← call (p.create_token user.id user.username user.role)
    refresh_token ← call (p.issue_refresh_token user.id jti)
    expires_in ← call p.access_token_expires_in_seconds
    pure (record {
      user = user;
      access_token = access;
      refresh_token = refresh_token;
      expires_in = expires_in;
    })

  unfoldable pub register_user : JsonBody → Action W Failure User
  unfolding call compute or_return user_from_json validate
  register_user payload = do
    user ← compute (user_from_json payload)
    refuse_if (not (validate user)) invalid_user_data
    taken ← or_return (p.exists_by_username user.username)
    refuse_if taken username_exists
    used ← or_return (p.exists_by_email user.email)
    refuse_if used email_exists
    hash ← call (p.hash_password user.password)
    let account = record user { role = bytes "user"; password = hash }
    id ← or_return (p.insert_user account)
    pure (record account { id = id })

  -- `!user || !verifyPassword(...)`
  abbrev pub checked_user : Text → Option User → Result Exception (Option User)
  checked_user password none = ok none
  checked_user password (some user) = elim (p.verify_password password user.password) [
    | ok true ↦ ok (some user)
    | ok false ↦ ok none
    | err e ↦ err e
  ]

  unfoldable pub login : JsonBody → Action W Failure TokenPair
  unfolding compute or_return or_error issue_token_pair
  login payload = do
    username ← compute (payload.value_or_empty (bytes "username"))
    email ← compute (payload.value_or_empty (bytes "email"))
    password ← compute (payload.value_or_empty (bytes "password"))
    refuse_if (is_empty password || (is_empty username && is_empty email)) missing_credentials
    let by_name = p.find_by_username username
    let by_email = p.find_by_email email
    found ← or_return (if not (is_empty username) then by_name else by_email)
    checked ← compute (checked_user password found)
    user ← or_error checked invalid_credentials
    issue_token_pair user

  -- `!stored || *stored != user_id`
  abbrev pub is_revoked : Option ℤ → ℤ → Bool
  is_revoked none user_id = true
  is_revoked (some stored) user_id = not (eqb_ℤ stored user_id)

  abbrev pub enabled_user : Option User → Option User
  enabled_user none = none
  enabled_user (some user) = if user.enabled then some user else none

  -- What follows the consumption of the token.
  unfoldable pub refresh_consumed : TokenClaims → Option ℤ → Action W Failure TokenPair
  unfolding or_return or_error issue_token_pair
  refresh_consumed claims stored = do
    refuse_if (is_revoked stored claims.user_id) refresh_token_revoked
    found ← or_return (p.find_by_id claims.user_id)
    user ← or_error (enabled_user found) invalid_refresh_token
    issue_token_pair user

  unfoldable pub refresh : JsonBody → Action W Failure TokenPair
  unfolding compute or_service refresh_consumed
  refresh payload = do
    token ← compute (payload.value_or_empty (bytes "refresh_token"))
    refuse_if (is_empty token) missing_refresh_token
    claims ← or_service (p.verify_refresh_token token)
    stored ← or_service (p.consume_token claims.jti)
    refresh_consumed claims stored

  unfoldable pub logout : JsonBody → Action W Failure (Unit {0})
  unfolding compute or_service
  logout payload = do
    token ← compute (payload.value_or_empty (bytes "refresh_token"))
    refuse_if (is_empty token) missing_refresh_token
    claims ← or_service (p.verify_refresh_token token)
    or_service (p.revoke_token claims.jti)

  unfoldable pub get_profile : ℤ → Action W Failure User
  unfolding or_return or_error
  get_profile user_id = do
    refuse_if (leb_ℤ user_id (pos 0)) unauthorized_user
    found ← or_return (p.find_by_id user_id)
    or_error found user_not_found

  unfoldable pub change_password : ℤ → JsonBody → Action W Failure (Unit {0})
  unfolding call compute or_service or_return get_profile
  change_password user_id payload = do
    old ← compute (payload.value_or_empty (bytes "old_password"))
    new ← compute (payload.value_or_empty (bytes "new_password"))
    refuse_if (is_empty old || is_empty new) missing_password
    refuse_if (ltb (length new) 6) short_password
    user ← get_profile user_id
    correct ← compute (p.verify_password old user.password)
    refuse_if (not correct) wrong_password
    or_service (p.revoke_user_tokens user_id)
    hash ← call (p.hash_password new)
    updated ← or_return (p.update_password user_id hash)
    refuse_if (not updated) user_not_found
