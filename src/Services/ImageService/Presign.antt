-- ===== src/Services/ImageService/Presign.antt =====
-- `presignListImagesInPlace` of `ImageService`, whatever the cache and the storage do.
use text2image.Base.{
  ◌≡◌, ◌≢◌, refl, ap, ltb, not, Bool, Bool-cases, inl, inr, true, false, Option, none, some, List,
  [], ◌∷◌, map, Text, is_empty, Result, ok, err, Action, next, ◌>>=◌, ◌>>◌, pure, when, arith,
}
use text2image.Models.ImageGeneration.{ImageGeneration}
use text2image.Errors.{ServiceError}
use text2image.Services.Effects.{
  Exception, Failure, returned, thrown, let_through, call, handled_all, try_catch_all,
}
use text2image.Services.CacheKeys.{presign_key}
use text2image.Services.Ports.{Ports}
use text2image.Services.ImageService.Cache.{
  presign_with_cache, cached_or_presign, presign_list_item, presign_list_images_in_place,
}

-- The image without its address.
abbrev pub unsigned : ImageGeneration → ImageGeneration
unsigned image = record image { image_url = [] }

-- The outcome is a value or an exception, and no early return.
abbrev HasNoReturn : {W A : Type 0} → Result Failure A × W → Type 0
HasNoReturn outcome = (e : ServiceError) → outcome.0 ≢ err (returned e)

abbrev failure_of : {A B : Type 0} → Failure → Result Failure A → Result Failure B
failure_of x (ok a) = err x
failure_of x (err e) = err e

module _ {W : Type 0} where
  next-HasNoReturn :
      {A B : Type 0} (f : A → Action W Failure B) (m : Result Failure A × W)
      → HasNoReturn m
      → ((a : A) (w : W) → HasNoReturn (f a w))
      → HasNoReturn (next f m)
  next-HasNoReturn f (ok a, w) h k e same = k a w e same
  next-HasNoReturn f (err x, w) h k e same = h e (ap (failure_of x) same)

  let_through-HasNoReturn :
      {A : Type 0} (outcome : Result Exception A × W) → HasNoReturn (let_through outcome)
  let_through-HasNoReturn (ok a, w) e = ground arith
  let_through-HasNoReturn (err x, w) e = ground arith

  call-HasNoReturn : {A : Type 0} (m : Action W Exception A) (w : W) → HasNoReturn (call m w)
  unfolding call
  call-HasNoReturn m w = let_through-HasNoReturn (m w)

  pure-HasNoReturn : {A : Type 0} (a : A) (w : W) → HasNoReturn {W = W} {A = A} (ok a, w)
  pure-HasNoReturn a w e = ground arith

-- Signing, with what to do on an exception: only the address may change.
abbrev IsSigned : {W : Type 0} → ImageGeneration → Result Failure ImageGeneration × W → Type 0
IsSigned {W = W} image outcome =
    (image' : ImageGeneration) × (w : W) × (outcome ≡ (ok image', w))
    × (unsigned image' ≡ unsigned image)

handled-IsSigned :
    {W : Type 0} (image : ImageGeneration) (m : Result Failure Text × W)
    → HasNoReturn m
    → IsSigned image
        (handled_all (pure image) (next (λ url. pure (record image { image_url = url })) m))
handled-IsSigned image (ok url, w) h = (record image { image_url = url }, w, refl, refl)
handled-IsSigned image (err (returned e), w) h = elim (h e refl) [ ]
handled-IsSigned image (err (thrown x), w) h = (image, w, refl, refl)

module _ {W : Type 0} (p : Ports W) where
  store_url-HasNoReturn :
      (stores : Bool) (key url : Text) (w : W)
      → HasNoReturn (
          (when stores (call (p.cache_setex key url p.presign_ttl) >>= λ _. pure tt) >> pure url) w)
  store_url-HasNoReturn true key url w =
      next-HasNoReturn _ _
        (next-HasNoReturn _ _ (call-HasNoReturn _ w) (λ b w. pure-HasNoReturn tt w))
        (λ _ w. pure-HasNoReturn url w)
  store_url-HasNoReturn false key url w = pure-HasNoReturn url w

  cached-HasNoReturn :
      (key storage_key : Text) (cached : Option Text) (w : W)
      → HasNoReturn (cached_or_presign p key storage_key cached w)
  cached-HasNoReturn key storage_key none w =
      next-HasNoReturn _ _ (call-HasNoReturn _ w)
        (λ url w. store_url-HasNoReturn (not (is_empty url)) key url w)
  cached-HasNoReturn key storage_key (some url) w = pure-HasNoReturn url w

  presign-HasNoReturn : (key : Text) (w : W) → HasNoReturn (presign_with_cache p key w)
  unfolding presign_with_cache
  presign-HasNoReturn key w = elim (Bool-cases (is_empty key)) [
    | inl e ↦ rw e (pure-HasNoReturn [] w)
    | inr e ↦ elim (Bool-cases (not (ltb 0 p.presign_ttl))) [
      | inl u ↦ rw (e, u) (call-HasNoReturn (p.presign_url key) w)
      | inr c ↦
          rw (e, c)
            (next-HasNoReturn _ _ (call-HasNoReturn _ w)
              (λ cached w. cached-HasNoReturn (presign_key key) key cached w))
    ]
  ]

  item-IsSigned : (image : ImageGeneration) (w : W) → IsSigned image (presign_list_item p image w)
  unfolding try_catch_all
  item-IsSigned image w = elim (Bool-cases (is_empty image.storage_key)) [
    | inl e ↦ rw e (image, w, refl, refl)
    | inr e ↦ rw e (
        handled-IsSigned image (presign_with_cache p image.storage_key w)
          (presign-HasNoReturn image.storage_key w))
  ]

  -- Whatever the cache and the storage do, the addresses of a list of images are signed without an
  -- error, and the list stays the same in everything but the addresses.
  pub presign_list_images_in_place-unsigned :
      (images : List ImageGeneration) (w : W)
      → (signed : List ImageGeneration) × (v : W) × (presign_list_images_in_place p images w
          ≡ (ok signed, v))
        × (map unsigned signed ≡ map unsigned images)
  unfolding presign_list_images_in_place
  presign_list_images_in_place-unsigned [] w = ([], w, refl, refl)
  presign_list_images_in_place-unsigned (image ∷ images) w =
      let first = item-IsSigned image w in
      let rest = presign_list_images_in_place-unsigned images first.1 in
      (first.0 ∷ rest.0, rest.1, rw (first.2, rest.2) refl, rw (first.3, rest.3) refl)
