-- ===== src/Services/ImageService/Cache.antt =====
-- The private helpers of `ImageService`: presigned addresses, and what is written to the cache.
use text2image.Base.{
  ◌+◌, ltb, not, ℤ, Option, none, some, List, [], ◌∷◌, map, Text, is_empty, if◌then◌else◌, Action,
  ◌>>=◌, ◌>>◌, pure, when,
}
use text2image.Models.TaskStatus.{is_terminal}
use text2image.Models.ImageGeneration.{ImageGeneration}
use text2image.Services.Effects.{Failure, call, compute, try_catch, try_catch_all}
use text2image.Services.CacheKeys.{
  decimal, presign_key, list_version_namespace, ttl_meta_terminal, ttl_meta_inflight, ttl_list_base,
}
use text2image.Services.Ports.{ImageListResult, Ports}

abbrev pub sanitized : ImageGeneration → ImageGeneration
sanitized image = record image { image_bytes = []; image_url = [] }

module _ {W : Type 0} (p : Ports W) where
  unfoldable pub invalidate_list_cache_for : ℤ → Action W Failure (Unit {0})
  invalidate_list_cache_for user_id =
      call (p.bump_version list_version_namespace (decimal user_id)) >>= λ _. pure tt

  abbrev pub presign_and_cache : Text → Text → Action W Failure Text
  presign_and_cache key storage_key = call (p.presign_url storage_key) >>= λ url.
      when (not (is_empty url)) (call (p.cache_setex key url p.presign_ttl) >>= λ _. pure tt)
      >> pure url

  abbrev pub cached_or_presign : Text → Text → Option Text → Action W Failure Text
  cached_or_presign key storage_key none = presign_and_cache key storage_key
  cached_or_presign key storage_key (some url) = pure url

  unfoldable pub presign_with_cache : Text → Action W Failure Text
  presign_with_cache storage_key =
      if is_empty storage_key
      then pure []
      else if not (ltb 0 p.presign_ttl)
      then call (p.presign_url storage_key)
      else (call (p.cache_get (presign_key storage_key)) >>= λ cached.
          cached_or_presign (presign_key storage_key) storage_key cached)

  -- An image whose address cannot be had keeps the address that it has.
  unfoldable pub presign_in_place : ImageGeneration → Action W Failure ImageGeneration
  unfolding presign_with_cache
  presign_in_place image =
      try_catch
        (presign_with_cache image.storage_key >>= λ url. pure (record image { image_url = url }))
        (pure image)

  abbrev pub presign_list_item : ImageGeneration → Action W Failure ImageGeneration
  presign_list_item image =
      if is_empty image.storage_key
      then pure image
      else try_catch_all
          (presign_with_cache image.storage_key >>= λ url. pure (record image { image_url = url }))
          (pure image)

  unfoldable pub presign_list_images_in_place :
      List ImageGeneration → Action W Failure (List ImageGeneration)
  presign_list_images_in_place [] = pure []
  presign_list_images_in_place (image ∷ images) = presign_list_item image >>= λ image'.
      presign_list_images_in_place images >>= λ images'. pure (image' ∷ images')

  unfoldable pub write_to_cache : Text → ImageGeneration → Action W Failure (Unit {0})
  write_to_cache key image =
      try_catch
        (compute (p.dump_image (sanitized image)) >>= λ value.
          call (
            p.cache_setex key value
              (if is_terminal image.status then ttl_meta_terminal else ttl_meta_inflight))
          >>= λ _. pure tt)
        (pure tt)

  unfoldable pub write_list_cache : Text → ImageListResult → Action W Failure (Unit {0})
  write_list_cache key result =
      try_catch
        (compute (p.dump_list (record result { content = map sanitized result.content }))
          >>= λ value. call p.list_ttl_jitter >>= λ jitter.
              call (p.cache_setex key value (ttl_list_base + jitter)) >>= λ _. pure tt)
        (pure tt)
