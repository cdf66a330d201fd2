-- ===== src/Services/RefreshTokens.antt =====
-- `InMemoryRefreshTokenStore` of Backend/src/services/refresh_token_store.cpp. The map is a list of
-- entries, the latest first, in which an insertion replaces the entry of the same key; the lock is
-- held during a whole operation. The time of `system_clock::now()` is an argument.
pub mod Laws
pub mod RedisStore
use text2image.Base.{
  ℕ, ◌+◌, leb, not, max, ℤ, pos, negsuc, eqb_ℤ, Option, none, some, List, [], ◌∷◌, keep, find?,
  Text, eqb, Bool,
}
use text2image.Utils.Chrono.{Time, seconds}

pub record Entry : Type 0 where
  pub key : Text
  pub user_id : ℤ
  pub expires_at : Time

abbrev pub Store : Type 0
Store = List Entry

abbrev pub has_key : Text → Entry → Bool
has_key jti e = eqb e.key jti

abbrev pub is_live : Time → Entry → Bool
is_live now e = not (leb e.expires_at now)

-- `tokens_.erase(jti)`
unfoldable pub revoke : Text → Store → Store
unfolding keep
revoke jti tokens = keep (λ e. not (has_key jti e)) tokens

-- `std::max(ttl, std::chrono::seconds{1})`
abbrev pub at_least_one : ℤ → ℕ
at_least_one (pos n) = max n 1
at_least_one (negsuc n) = 1

unfoldable pub store : Time → Text → ℤ → ℤ → Store → Store
unfolding revoke
store now jti user_id ttl tokens =
    record { key = jti; user_id = user_id; expires_at = now + seconds (at_least_one ttl) }
    ∷ revoke jti tokens

unfoldable pub erase_expired : Time → Store → Store
unfolding keep
erase_expired now tokens = keep (is_live now) tokens

abbrev consumed : Text → Store → Option Entry → Option ℤ × Store
consumed jti tokens none = (none, tokens)
consumed jti tokens (some e) = (some e.user_id, revoke jti tokens)

unfoldable pub consume : Time → Text → Store → Option ℤ × Store
unfolding erase_expired revoke find?
consume now jti tokens =
    consumed jti (erase_expired now tokens) (find? (has_key jti) (erase_expired now tokens))

unfoldable pub revoke_user : ℤ → Store → Store
unfolding keep
revoke_user user_id tokens = keep (λ e. not (eqb_ℤ e.user_id user_id)) tokens

unfoldable pub clear : Store → Store
clear tokens = []
