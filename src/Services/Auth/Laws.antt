-- ===== src/Services/Auth/Laws.antt =====
-- What accounts and passwords `AuthService` hands to the user repository.
use text2image.Base.{
  ◌≡◌, refl, ltb, ℤ, Bool, not, Text, bytes, is_empty, ◌||◌, length, Result, ok, err, Action, next,
  ◌>>=◌,
}
use text2image.Models.User.{User, JsonBody, user_from_json, validate}
use text2image.Errors.{ServiceError}
use text2image.Errors.Repo.{RepoError}
use text2image.Services.Effects.{Failure, call, compute, or_return}
use text2image.Services.Auth.{
  AuthPorts, refuse_if, or_service, register_user, get_profile, change_password, short_password,
  missing_password, wrong_password, username_exists, email_exists, invalid_user_data,
}

-- Two actions that go on alike after a first step are alike.
bind_ext :
    {W E A B : Type 0} (m : Action W E A) (f g : A → Action W E B)
    → ((a : A) (w : W) → f a w ≡ g a w)
    → (w : W) → (m >>= f) w ≡ (m >>= g) w
bind_ext m f g h w = after (m w)
  where
    after : (o : Result _ _ × _) → next f o ≡ next g o
    after (ok a, v) = h a v
    after (err e, v) = refl

module _ {W : Type 0} (p : AuthPorts W) where
  -- Whatever the payload asks for, registration hands only users of the role `user` to the
  -- repository: how `insert` treats any other user does not matter.
  pub register_user-insert :
      (insert' : User → Action W RepoError ℤ)
      → ((u : User) (w : W) → u.role ≡ bytes "user" → insert' u w ≡ p.insert_user u w)
      → (payload : JsonBody) (w : W)
      → register_user (record p { insert_user = insert' }) payload w ≡ register_user p payload w
  unfolding register_user or_return
  register_user-insert insert' same payload =
      bind_ext (compute (user_from_json payload)) _ _ λ user.
        bind_ext (refuse_if (not (validate user)) invalid_user_data) _ _ λ u.
          bind_ext (or_return (p.exists_by_username user.username)) _ _ λ taken.
            bind_ext (refuse_if taken username_exists) _ _ λ v.
              bind_ext (or_return (p.exists_by_email user.email)) _ _ λ used.
                bind_ext (refuse_if used email_exists) _ _ λ x.
                  bind_ext (call (p.hash_password user.password)) _ _ λ hash. λ w.
                    rw (same (record user { role = bytes "user"; password = hash }) w refl) refl

  abbrev CannotRevoke : Type 0
  CannotRevoke =
      (id : ℤ) (w : W) → (e : ServiceError) × (v : W) × (p.revoke_user_tokens id w ≡ (err e, v))

  revoked_first :
      CannotRevoke
      → (id : ℤ) (f g : Unit {0} → Action W Failure (Unit {0})) (w : W)
      → (or_service (p.revoke_user_tokens id) >>= f) w
        ≡ (or_service (p.revoke_user_tokens id) >>= g) w
  unfolding or_service
  revoked_first fails id f g w = rw (fails id w).2 refl

  -- While the user's refresh tokens cannot be revoked, a change of the password does not reach the
  -- repository: how it updates a password does not matter.
  pub change_password-update :
      (update' : ℤ → Text → Action W RepoError Bool)
      → CannotRevoke
      → (id : ℤ) (payload : JsonBody) (w : W)
      → change_password (record p { update_password = update' }) id payload w
        ≡ change_password p id payload w
  unfolding change_password get_profile or_service
  change_password-update update' fails id payload =
      bind_ext (compute (payload.value_or_empty (bytes "old_password"))) _ _ λ old.
        bind_ext (compute (payload.value_or_empty (bytes "new_password"))) _ _ λ new.
          bind_ext (refuse_if (is_empty old || is_empty new) missing_password) _ _ λ u.
            bind_ext (refuse_if (ltb (length new) 6) short_password) _ _ λ v.
              bind_ext (get_profile p id) _ _ λ user.
                bind_ext (compute (p.verify_password old user.password)) _ _ λ correct.
                  bind_ext (refuse_if (not correct) wrong_password) _ _
                    λ x. revoked_first fails id _ _
