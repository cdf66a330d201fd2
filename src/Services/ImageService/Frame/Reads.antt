-- ===== src/Services/ImageService/Frame/Reads.antt =====
-- What the collaborators of `ImageService` keep, its reading operations keep.
use text2image.Base.{ℤ, Bool, Option, none, some, Text, is_empty, eqb, not, ◌&&◌, Action}
use text2image.Models.ImageGeneration.{ImageGeneration}
use text2image.Errors.Repo.{RepoError}
use text2image.Services.Yields.{Preserves}
use text2image.Services.CacheKeys.{null_marker}
use text2image.Services.Ports.{ImageListResult, Ports}
use text2image.Services.ImageService.Reads.{
  with_payload, cached_image, cache_missing, cached_or_load, cached_list, cached_or_load_list,
  list_under, list_my, list_my_by_status, get_by_id, get_binary_by_id,
}
use text2image.Services.ImageService.Frame.{
  call-Preserves, compute-Preserves, or_return-Preserves, or_error-Preserves, fail-Preserves,
  guard-Preserves, if-Preserves, step, done, try_catch-Preserves,
}
use text2image.Services.ImageService.Frame.Helpers.{
  Framed, presign_in_place-Preserves, presign_list-Preserves, write_to_cache-Preserves,
  write_list_cache-Preserves,
}

module _ {W : Type 0} (p : Ports W) (P : W → Type 0) (k : Framed p P) where
  with_payload-Preserves :
      (payload : Bool) (image : ImageGeneration) → Preserves P (with_payload p payload image)
  with_payload-Preserves payload image =
      if-Preserves P (payload && not (is_empty image.storage_key)) _ _
        (presign_in_place-Preserves p P k image) (done P image)

  cached_image-Preserves :
      (key : Text) (payload : Bool) (cached : Option Text)
      → Preserves P (cached_image p key payload cached)
  cached_image-Preserves key payload none = done P _
  cached_image-Preserves key payload (some cached) =
      if-Preserves P (eqb cached null_marker) _ _ (fail-Preserves P _) (
        try_catch-Preserves P _ _
          (step P _ _ (compute-Preserves P _)
            λ j. step P _ _ (with_payload-Preserves payload _) λ image. done P _)
          (step P _ _ (call-Preserves P _ (k.del_kept _)) λ gone. done P _))

  cache_missing-Preserves :
      (key : Text) (found : Option ImageGeneration) → Preserves P (cache_missing p key found)
  cache_missing-Preserves key none =
      step P _ _ (call-Preserves P _ (k.setex_kept _ _ _)) λ set. fail-Preserves P _
  cache_missing-Preserves key (some g) = done P g

  cached_or_load-Preserves :
      (key : Text) (user id : ℤ) (payload : Bool) (answer : Option ImageGeneration)
      → Preserves P (cached_or_load p key user id payload answer)
  cached_or_load-Preserves key user id payload none =
      step P _ _ (or_return-Preserves P _ (k.find_kept _ _)) λ image.
        step P _ _ (cache_missing-Preserves key image) λ g.
          step P _ _ (write_to_cache-Preserves p P k key g) λ u. with_payload-Preserves payload g
  cached_or_load-Preserves key user id payload (some image) = done P image

  pub get_by_id-Preserves :
      (user id : ℤ) (payload : Bool) → Preserves P (get_by_id p user id payload)
  unfolding get_by_id
  get_by_id-Preserves user id payload = step P _ _ (guard-Preserves P _ _) λ u.
      step P _ _ (call-Preserves P _ (k.get_kept _)) λ cached.
        step P _ _ (cached_image-Preserves _ payload cached)
          λ answer. cached_or_load-Preserves _ user id payload answer

  cached_list-Preserves :
      (key : Text) (cached : Option Text) → Preserves P (cached_list p key cached)
  cached_list-Preserves key none = done P _
  cached_list-Preserves key (some cached) =
      try_catch-Preserves P _ _
        (step P _ _ (compute-Preserves P _)
          λ parsed. step P _ _ (presign_list-Preserves p P k _) λ content. done P _)
        (step P _ _ (call-Preserves P _ (k.del_kept _)) λ gone. done P _)

  cached_or_load_list-Preserves :
      (key : Text) (find_page : Action W RepoError ImageListResult)
      → Preserves P find_page
      → (answer : Option ImageListResult) → Preserves P (cached_or_load_list p key find_page answer)
  cached_or_load_list-Preserves key find_page h none =
      step P _ _ (or_return-Preserves P find_page h) λ result.
        step P _ _ (write_list_cache-Preserves p P k key result)
          λ u. step P _ _ (presign_list-Preserves p P k result.content) λ content. done P _
  cached_or_load_list-Preserves key find_page h (some result) = done P result

  list_under-Preserves :
      (key : Text) (find_page : Action W RepoError ImageListResult)
      → Preserves P find_page
      → Preserves P (list_under p key find_page)
  unfolding list_under
  list_under-Preserves key find_page h = step P _ _ (call-Preserves P _ (k.get_kept key)) λ cached.
      step P _ _ (cached_list-Preserves key cached)
        λ answer. cached_or_load_list-Preserves key find_page h answer

  pub list_my-Preserves : (user page size : ℤ) → Preserves P (list_my p user page size)
  unfolding list_my
  list_my-Preserves user page size = step P _ _ (guard-Preserves P _ _) λ u.
      step P _ _ (call-Preserves P _ (k.version_kept _ _))
        λ version. list_under-Preserves _ _ (k.page_kept _ _ _)

  pub list_my_by_status-Preserves :
      (user : ℤ) (status : Text) (page size : ℤ)
      → Preserves P (list_my_by_status p user status page size)
  unfolding list_my_by_status
  list_my_by_status-Preserves user status page size = step P _ _ (guard-Preserves P _ _) λ u.
      step P _ _ (call-Preserves P _ (k.version_kept _ _))
        λ version. list_under-Preserves _ _ (k.status_page_kept _ _ _ _)

  pub get_binary_by_id-Preserves : (user id : ℤ) → Preserves P (get_binary_by_id p user id)
  unfolding get_binary_by_id
  get_binary_by_id-Preserves user id = step P _ _ (guard-Preserves P _ _) λ u.
      step P _ _ (or_return-Preserves P _ (k.find_kept _ _)) λ image.
        step P _ _ (or_error-Preserves P image _) λ g. step P _ _ (guard-Preserves P _ _) λ v.
          try_catch-Preserves P _ _
            (step P _ _ (call-Preserves P _ (k.bytes_kept _)) λ loaded.
              step P _ _ (or_error-Preserves P loaded _)
                λ body. step P _ _ (call-Preserves P _ (k.content_type_kept _)) λ t. done P _)
            (fail-Preserves P _)
