-- ===== src/Services/ImageService/Reads.antt =====
-- `getById`, `listMy`, `listMyByStatus` and `getBinaryById` of `ImageService`.
use text2image.Base.{
  ℤ, Bool, not, ◌&&◌, Option, none, some, [], ◌∷◌, map, Text, bytes, eqb, is_empty, if◌then◌else◌,
  Action, ◌>>=◌, ◌>>◌, pure, fail, guard,
}
use text2image.Models.TaskStatus.{can_return_binary, normalize_task_status}
use text2image.Models.ImageGeneration.{ImageGeneration, from_json}
use text2image.Errors.{ServiceError, text, service_error, conflict, internal_server_error}
use text2image.Services.Effects.{Failure, returned, call, compute, try_catch, or_return, or_error}
use text2image.Errors.Repo.{RepoError}
use text2image.Services.CacheKeys.{
  decimal, meta_key, list_my_key, list_my_status_key, normalized_page, normalized_size,
  list_version_namespace, null_marker, ttl_null_marker,
}
use text2image.Services.Ports.{ImageListResult, Ports}
use text2image.Services.ImageService.{require_user, image_not_found, status_detail}
use text2image.Services.ImageService.Cache.{
  presign_in_place, presign_list_images_in_place, write_to_cache, write_list_cache,
}

pub record ImageBinaryResult : Type 0 where
  pub body : Text
  pub content_type : Text

module _ {W : Type 0} (p : Ports W) where
  -- `if (includeImagePayload && !image.storage_key.empty()) presignInPlace(image);`
  abbrev pub with_payload : Bool → ImageGeneration → Action W Failure ImageGeneration
  with_payload include_image_payload image =
      if include_image_payload && not (is_empty image.storage_key)
      then presign_in_place p image
      else pure image

  -- The answer that a cached value gives, or `none` when it is evicted.
  abbrev pub cached_image : Text → Bool → Option Text → Action W Failure (Option ImageGeneration)
  cached_image key include_image_payload none = pure none
  cached_image key include_image_payload (some cached) =
      if eqb cached null_marker
      then fail (returned image_not_found)
      else try_catch
          (compute (p.parse_image cached) >>= λ j.
            with_payload include_image_payload (from_json p.calendar j) >>= λ image.
            pure (some image))
          (call (p.cache_del key) >>= λ _. pure none)

  abbrev pub cache_missing : Text → Option ImageGeneration → Action W Failure ImageGeneration
  cache_missing key none =
      call (p.cache_setex key null_marker ttl_null_marker) >>= λ _. fail (returned image_not_found)
  cache_missing key (some generation) = pure generation

  abbrev pub load_image : Text → ℤ → ℤ → Bool → Action W Failure ImageGeneration
  load_image key user_id id include_image_payload = or_return (p.find_task id user_id) >>= λ image.
      cache_missing key image >>= λ generation.
      write_to_cache p key generation >> with_payload include_image_payload generation

  abbrev pub cached_or_load :
      Text → ℤ → ℤ → Bool → Option ImageGeneration → Action W Failure ImageGeneration
  cached_or_load key user_id id include_image_payload none =
      load_image key user_id id include_image_payload
  cached_or_load key user_id id include_image_payload (some image) = pure image

  unfoldable pub get_by_id : ℤ → ℤ → Bool → Action W Failure ImageGeneration
  get_by_id user_id id include_image_payload =
      require_user user_id
      >> (call (p.cache_get (meta_key user_id id)) >>= λ cached.
          cached_image (meta_key user_id id) include_image_payload cached >>= λ answer.
          cached_or_load (meta_key user_id id) user_id id include_image_payload answer)

  abbrev pub cached_list : Text → Option Text → Action W Failure (Option ImageListResult)
  cached_list key none = pure none
  cached_list key (some cached) =
      try_catch
        (compute (p.parse_list cached) >>= λ parsed.
          presign_list_images_in_place p (map (from_json p.calendar) parsed.1) >>= λ content.
          pure (some (record { content = content; total_elements = parsed.0 })))
        (call (p.cache_del key) >>= λ _. pure none)

  abbrev pub load_list :
      Text → Action W RepoError ImageListResult → Action W Failure ImageListResult
  load_list key find_page = or_return find_page >>= λ result.
      write_list_cache p key result
      >> (presign_list_images_in_place p result.content >>= λ content.
          pure (record result { content = content }))

  abbrev pub cached_or_load_list :
      Text
      → Action W RepoError ImageListResult
      → Option ImageListResult
      → Action W Failure ImageListResult
  cached_or_load_list key find_page none = load_list key find_page
  cached_or_load_list key find_page (some result) = pure result

  -- What both lists do once their key is known.
  unfoldable pub list_under :
      Text → Action W RepoError ImageListResult → Action W Failure ImageListResult
  list_under key find_page = call (p.cache_get key) >>= λ cached.
      cached_list key cached >>= λ answer. cached_or_load_list key find_page answer

  unfoldable pub list_my : ℤ → ℤ → ℤ → Action W Failure ImageListResult
  unfolding list_under
  list_my user_id page size =
      require_user user_id
      >> (call (p.get_version list_version_namespace (decimal user_id)) >>= λ version.
          list_under (list_my_key user_id version (normalized_page page) (normalized_size size))
            (p.find_tasks user_id (normalized_page page) (normalized_size size)))

  unfoldable pub list_my_by_status : ℤ → Text → ℤ → ℤ → Action W Failure ImageListResult
  unfolding list_under
  list_my_by_status user_id status page size =
      require_user user_id
      >> (call (p.get_version list_version_namespace (decimal user_id)) >>= λ version.
          list_under
            (list_my_status_key user_id version (normalize_task_status status)
              (normalized_page page) (normalized_size size))
            (p.find_tasks_by_status user_id (normalize_task_status status) (normalized_page page)
              (normalized_size size)))

  abbrev pub storage_read_failed : ServiceError
  storage_read_failed =
      service_error internal_server_error "image_storage_read_failed" "failed to load image binary"

  abbrev pub read_failed_for : Text → ServiceError
  read_failed_for storage_key = record storage_read_failed {
    details = (bytes "storageKey", text storage_key) ∷ [];
  }

  unfoldable pub get_binary_by_id : ℤ → ℤ → Action W Failure ImageBinaryResult
  get_binary_by_id user_id id =
      require_user user_id
      >> (or_return (p.find_task id user_id) >>= λ image.
          or_error image image_not_found >>= λ generation.
          guard (can_return_binary generation.status generation.storage_key) (
            returned
              (record (service_error conflict "image_binary_not_ready"
                "image binary is not ready") { details = status_detail generation.status }))
          >> try_catch
              (call (p.get_bytes generation.storage_key) >>= λ loaded.
                or_error loaded (read_failed_for generation.storage_key) >>= λ body.
                call (p.content_type_for_key generation.storage_key) >>= λ content_type.
                pure (record { body = body; content_type = content_type }))
              (fail (returned storage_read_failed)))
