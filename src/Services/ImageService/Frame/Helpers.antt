-- ===== src/Services/ImageService/Frame/Helpers.antt =====
-- What the collaborators of `ImageService` keep, its private helpers keep.
use text2image.Base.{
  ℕ, ltb, not, ℤ, Option, none, some, List, [], ◌∷◌, Text, is_empty, ◌≡◌, ◌>>=◌, pure,
}
use text2image.Models.TaskStatus.{TaskStatus, queued}
use text2image.Models.ImageGeneration.{ImageGeneration}
use text2image.Services.Yields.{Preserves}
use text2image.Services.Ports.{ImageListResult, Ports}
use text2image.Services.ImageService.Cache.{
  invalidate_list_cache_for, cached_or_presign, presign_with_cache, presign_in_place,
  presign_list_item, presign_list_images_in_place, write_to_cache, write_list_cache,
}
use text2image.Services.ImageService.Frame.{
  call-Preserves, compute-Preserves, if-Preserves, when-Preserves, step, done, try_catch-Preserves,
  try_catch_all-Preserves,
}

-- Every call of a collaborator keeps `P`; an insertion where the task is queued.
pub record Framed {W : Type 0} (p : Ports W) (P : W → Type 0) : Type 0 where
  pub count_kept : (user : ℤ) → Preserves P (p.count_active_tasks user)
  pub request_kept : (request : Text) (user : ℤ) → Preserves P (p.find_by_request_id request user)
  pub insert_kept : (g : ImageGeneration) → g.status ≡ queued → Preserves P (p.insert_task g)
  pub find_kept : (id user : ℤ) → Preserves P (p.find_task id user)
  pub page_kept : (user page size : ℤ) → Preserves P (p.find_tasks user page size)
  pub status_page_kept :
      (user : ℤ) (status : TaskStatus) (page size : ℤ)
      → Preserves P (p.find_tasks_by_status user status page size)
  pub cancel_kept : (id user : ℤ) → Preserves P (p.cancel_task id user)
  pub retry_kept : (id user : ℤ) → Preserves P (p.retry_task id user)
  pub delete_kept : (id user : ℤ) → Preserves P (p.delete_task id user)
  pub get_kept : (key : Text) → Preserves P (p.cache_get key)
  pub setex_kept : (key value : Text) (ttl : ℕ) → Preserves P (p.cache_setex key value ttl)
  pub del_kept : (key : Text) → Preserves P (p.cache_del key)
  pub bump_kept : (ns identifier : Text) → Preserves P (p.bump_version ns identifier)
  pub version_kept : (ns identifier : Text) → Preserves P (p.get_version ns identifier)
  pub bytes_kept : (key : Text) → Preserves P (p.get_bytes key)
  pub presign_kept : (key : Text) → Preserves P (p.presign_url key)
  pub remove_kept : (key : Text) → Preserves P (p.remove_object key)
  pub content_type_kept : (key : Text) → Preserves P (p.content_type_for_key key)
  pub publish_kept : (g : ImageGeneration) → Preserves P (p.publish_task_updated g)
  pub record_kept : (status : TaskStatus) → Preserves P (p.record_task_status status)
  pub enqueue_kept : (id : ℤ) → Preserves P (p.enqueue id)
  pub redis_kept : Preserves P p.redis_is_available
  pub queue_kept : (id : ℤ) → Preserves P (p.remove_from_queue id)
  pub lease_kept : (id : ℤ) → Preserves P (p.force_release_lease id)
  pub now_kept : Preserves P p.system_now
  pub request_id_kept : Preserves P p.build_request_id
  pub jitter_kept : Preserves P p.list_ttl_jitter

module _ {W : Type 0} (p : Ports W) (P : W → Type 0) (k : Framed p P) where
  pub invalidate-Preserves : (user : ℤ) → Preserves P (invalidate_list_cache_for p user)
  unfolding invalidate_list_cache_for
  invalidate-Preserves user = step P _ _ (call-Preserves P _ (k.bump_kept _ _)) λ version. done P _

  cached_or_presign-Preserves :
      (key storage_key : Text) (cached : Option Text)
      → Preserves P (cached_or_presign p key storage_key cached)
  cached_or_presign-Preserves key storage_key none =
      step P _ _ (call-Preserves P _ (k.presign_kept _)) λ url.
        step P _ _
          (when-Preserves P _ _
            (step P _ _ (call-Preserves P _ (k.setex_kept _ _ _)) λ set. done P _))
          λ u. done P _
  cached_or_presign-Preserves key storage_key (some url) = done P _

  presign_with_cache-Preserves : (key : Text) → Preserves P (presign_with_cache p key)
  unfolding presign_with_cache
  presign_with_cache-Preserves key = if-Preserves P (is_empty key) _ _ (done P _) (
      if-Preserves P (not (ltb 0 p.presign_ttl)) _ _ (call-Preserves P _ (k.presign_kept _)) (
        step P _ _ (call-Preserves P _ (k.get_kept _))
          λ cached. cached_or_presign-Preserves _ _ cached))

  signed-Preserves :
      (image : ImageGeneration)
      → Preserves P (
          presign_with_cache p image.storage_key >>= λ url. pure (record image { image_url = url }))
  signed-Preserves image =
      step P _ _ (presign_with_cache-Preserves image.storage_key) λ url. done P _

  pub presign_in_place-Preserves :
      (image : ImageGeneration) → Preserves P (presign_in_place p image)
  unfolding presign_in_place
  presign_in_place-Preserves image =
      try_catch-Preserves P _ _ (signed-Preserves image) (done P image)

  presign_list_item-Preserves : (image : ImageGeneration) → Preserves P (presign_list_item p image)
  presign_list_item-Preserves image =
      if-Preserves P (is_empty image.storage_key) _ _ (done P image)
        (try_catch_all-Preserves P _ _ (signed-Preserves image) (done P image))

  pub presign_list-Preserves :
      (images : List ImageGeneration) → Preserves P (presign_list_images_in_place p images)
  unfolding presign_list_images_in_place
  presign_list-Preserves [] = done P _
  presign_list-Preserves (image ∷ images) =
      step P _ _ (presign_list_item-Preserves image)
        λ image'. step P _ _ (presign_list-Preserves images) λ images'. done P _

  pub write_to_cache-Preserves :
      (key : Text) (image : ImageGeneration) → Preserves P (write_to_cache p key image)
  unfolding write_to_cache
  write_to_cache-Preserves key image =
      try_catch-Preserves P _ _
        (step P _ _ (compute-Preserves P _)
          λ value. step P _ _ (call-Preserves P _ (k.setex_kept _ _ _)) λ set. done P _)
        (done P _)

  pub write_list_cache-Preserves :
      (key : Text) (result : ImageListResult) → Preserves P (write_list_cache p key result)
  unfolding write_list_cache
  write_list_cache-Preserves key result =
      try_catch-Preserves P _ _
        (step P _ _ (compute-Preserves P _) λ value.
          step P _ _ (call-Preserves P _ k.jitter_kept)
            λ jitter. step P _ _ (call-Preserves P _ (k.setex_kept _ _ _)) λ set. done P _)
        (done P _)
