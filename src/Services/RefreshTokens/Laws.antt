-- ===== src/Services/RefreshTokens/Laws.antt =====
-- The in-memory store: what a token is good for after it was stored, consumed or revoked.
use text2image.Base.{
  ◌<◌, ◌≤◌, ◌+◌, leb, not, ◌≡◌, ◌≢◌, refl, Bool-cases, inl, inr, ℤ, eqb_ℤ, eqb_ℤ_refl, eqb_refl,
  Option, none, some, [], ◌∷◌, All, keep, find?, Text, Bool, true, false, arith,
}
use text2image.Utils.Chrono.{Time, seconds}
use text2image.Services.RefreshTokens.{
  Entry, Store, has_key, is_live, revoke, at_least_one, store, erase_expired, consumed, consume,
  revoke_user,
}

module _ (p q : Entry → Bool) where
  -- What is kept by one test and sought by its opposite is not found.
  find?-keep :
      ((e : Entry) → q e ≡ true → p e ≡ false) → (tokens : Store) → find? p (keep q tokens) ≡ none
  unfolding find? keep
  find?-keep h [] = refl
  find?-keep h (e ∷ tokens) = elim (Bool-cases (q e)) [
    | inl kept ↦ rw (kept, h e kept) (find?-keep h tokens)
    | inr dropped ↦ rw dropped (find?-keep h tokens)
  ]

  -- What cannot be found is not found after more is dropped.
  pub find?-keep-none : (tokens : Store) → find? p tokens ≡ none → find? p (keep q tokens) ≡ none
  unfolding find? keep
  find?-keep-none [] n = refl
  find?-keep-none (e ∷ tokens) n = ground (arith, find?-keep-none tokens)

  find?-holds :
      (tokens : Store) (x : Entry)
      → All (λ e. q e ≡ true) tokens
      → find? p tokens ≡ some x
      → q x ≡ true
  unfolding find?
  find?-holds [] x a f = ground arith
  find?-holds (e ∷ tokens) x a f = ground (arith, find?-holds tokens x a.1, a.0)

keep-All :
    (P : Entry → Type 0) (r : Entry → Bool) (tokens : Store) → All P tokens → All P (keep r tokens)
unfolding keep
keep-All P r [] a = tt
keep-All P r (e ∷ tokens) a = elim (Bool-cases (r e)) [
  | inl kept ↦ rw kept (a.0, keep-All P r tokens a.1)
  | inr dropped ↦ rw dropped (keep-All P r tokens a.1)
]

keep-holds : (q : Entry → Bool) (tokens : Store) → All (λ e. q e ≡ true) (keep q tokens)
unfolding keep
keep-holds q [] = tt
keep-holds q (e ∷ tokens) = elim (Bool-cases (q e)) [
  | inl kept ↦ rw kept (kept, keep-holds q tokens)
  | inr dropped ↦ rw dropped (keep-holds q tokens)
]

pub consumed_none :
    (now : Time) (jti : Text) (tokens : Store)
    → find? (has_key jti) tokens ≡ none
    → (consume now jti tokens).0 ≡ none
unfolding consume erase_expired
consumed_none now jti tokens n = rw (find?-keep-none (has_key jti) (is_live now) tokens n) refl

revoked_not_found :
    (jti : Text) (later : Time) (tokens : Store)
    → find? (has_key jti) (keep (is_live later) (keep (λ e. not (has_key jti e)) tokens)) ≡ none
revoked_not_found jti later tokens =
    find?-keep-none _ (is_live later) _ (find?-keep _ _ (λ y k. ground arith) tokens)

consumed-lacks :
    (jti : Text) (tokens : Store)
    → (found : Option Entry) → find? (has_key jti) tokens ≡ found
    → find? (has_key jti) (consumed jti tokens found).1 ≡ none
unfolding revoke
consumed-lacks jti tokens none e = e
consumed-lacks jti tokens (some x) e = find?-keep _ _ (λ y k. ground arith) tokens

-- After a token is consumed no entry has its name.
pub consume-lacks :
    (tokens : Store) (jti : Text) (now : Time)
    → find? (has_key jti) (consume now jti tokens).1 ≡ none
unfolding consume
consume-lacks tokens jti now = consumed-lacks jti (erase_expired now tokens) _ refl

-- In the in-memory store, a token that was just stored, with no other operation since, is good for
-- its user until its time to live, at least a second, is over.
pub consume-store :
    (tokens : Store) (jti : Text) (user_id ttl : ℤ) (now later : Time)
    → later < now + seconds (at_least_one ttl)
    → (consume later jti (store now jti user_id ttl tokens)).0 ≡ some user_id
unfolding consume store erase_expired keep find? revoke
consume-store tokens jti user_id ttl now later h = live (leb_false h)
  where
    leb_false :
        later < now + seconds (at_least_one ttl)
        → leb (now + seconds (at_least_one ttl)) later ≡ false
    leb_false h = ground arith

    live :
        leb (now + seconds (at_least_one ttl)) later ≡ false
        → (consume later jti (store now jti user_id ttl tokens)).0 ≡ some user_id
    live e = rw (e, eqb_refl jti) refl

-- Once the time to live of a token that was just stored is over, the token is good for nobody, even
-- if the store held an older token of the same name.
consume-store_expired :
    (tokens : Store) (jti : Text) (user_id ttl : ℤ) (now later : Time)
    → now + seconds (at_least_one ttl) ≤ later
    → (consume later jti (store now jti user_id ttl tokens)).0 ≡ none
unfolding consume store erase_expired keep find? revoke
consume-store_expired tokens jti user_id ttl now later h = over (leb_true h)
  where
    leb_true :
        now + seconds (at_least_one ttl) ≤ later
        → leb (now + seconds (at_least_one ttl)) later ≡ true
    leb_true h = ground arith

    over :
        leb (now + seconds (at_least_one ttl)) later ≡ true
        → (consume later jti (store now jti user_id ttl tokens)).0 ≡ none
    over e = rw (e, revoked_not_found jti later tokens) refl

consumed-user :
    (jti : Text) (user_id : ℤ) (tokens : Store) (found : Option Entry)
    → ((x : Entry) → found ≡ some x → not (eqb_ℤ x.user_id user_id) ≡ true)
    → (consumed jti tokens found).0 ≢ some user_id
consumed-user jti user_id tokens none h e = ground arith
consumed-user jti user_id tokens (some x) h e = ground (arith, h x refl, eqb_ℤ_refl user_id)

-- After all the tokens of a user were revoked, no token is good for this user.
consume-revoke_user :
    (tokens : Store) (jti : Text) (user_id : ℤ) (now : Time)
    → (consume now jti (revoke_user user_id tokens)).0 ≢ some user_id
unfolding consume revoke_user erase_expired
consume-revoke_user tokens jti user_id now e =
    consumed-user jti user_id _
      (find? (has_key jti) (erase_expired now (revoke_user user_id tokens)))
      (λ x f.
        find?-holds (has_key jti) (λ y. not (eqb_ℤ y.user_id user_id)) _ x
          (keep-All _ (is_live now) _ (keep-holds _ tokens)) f)
      e
