-- ===== src/Services/ImageService/Frame/Writes.antt =====
-- What the collaborators of `ImageService` keep, its writing operations keep: `create` hands only
-- queued tasks to the repository.
use text2image.Base.{ℤ, Bool, Option, none, some, Text, is_empty, ◌≡◌, refl, Action}
use text2image.Models.TaskStatus.{queued}
use text2image.Models.ImageGeneration.{ImageGeneration, JsonObject, from_json}
use text2image.Services.Validation.{validate_generation_params}
use text2image.Services.ImageService.{require_user}
use text2image.Errors.{ServiceError}
use text2image.Services.Effects.{Failure}
use text2image.Services.Yields.{Preserves}
use text2image.Services.Ports.{Ports}
use text2image.Services.ImageService.Writes.{
  check_active_tasks, request_id_or_new, after_insert, insert_unless, prepared, or_failure, create,
  redis_cleanup, after_cancel, cancel_by_id, after_retry, retry_by_id, delete_by_id,
}
use text2image.Services.ImageService.Frame.{
  call-Preserves, compute-Preserves, or_return-Preserves, or_error-Preserves, fail-Preserves,
  guard-Preserves, if-Preserves, when-Preserves, step, done, try_catch-Preserves,
  try_catch_all-Preserves,
}
use text2image.Services.ImageService.Frame.Helpers.{
  Framed, invalidate-Preserves, write_to_cache-Preserves,
}

module _ {W : Type 0} (p : Ports W) (P : W → Type 0) (k : Framed p P) where
  or_failure-Preserves :
      {A : Type 0} (found : Option ServiceError) (m : Action W Failure A)
      → Preserves P m
      → Preserves P (or_failure found m)
  or_failure-Preserves none m h = h
  or_failure-Preserves (some error) m h = fail-Preserves P _

  check_active-Preserves :
      (user : ℤ) (is_admin : Bool) → Preserves P (check_active_tasks p user is_admin)
  unfolding check_active_tasks
  check_active-Preserves user is_admin = step P _ _ (compute-Preserves P _) λ limit.
      when-Preserves P _ _
        (step P _ _ (or_return-Preserves P _ (k.count_kept _)) λ n. guard-Preserves P _ _)

  after_insert-Preserves : (user : ℤ) (g : ImageGeneration) → Preserves P (after_insert p user g)
  after_insert-Preserves user g = step P _ _ (call-Preserves P _ (k.record_kept _)) λ u.
      try_catch-Preserves P _ _
        (step P _ _ (call-Preserves P _ (k.publish_kept _)) λ u.
          step P _ _ (write_to_cache-Preserves p P k _ _) λ u.
            step P _ _ (invalidate-Preserves p P k _)
              λ u. step P _ _ (call-Preserves P _ (k.enqueue_kept _)) λ u. done P _)
        (fail-Preserves P _)

  insert_unless-Preserves :
      (user : ℤ) (g : ImageGeneration)
      → g.status ≡ queued
      → (existing : Option ImageGeneration) → Preserves P (insert_unless p user g existing)
  insert_unless-Preserves user g q (some existing) = done P existing
  insert_unless-Preserves user g q none =
      step P _ _ (or_return-Preserves P _ (k.insert_kept g q)) λ id. after_insert-Preserves user _

  request_id-Preserves : (request_id : Text) → Preserves P (request_id_or_new p request_id)
  request_id-Preserves request_id =
      if-Preserves P (is_empty request_id) _ _ (call-Preserves P _ k.request_id_kept)
        (done P request_id)

  pub create-Preserves :
      (user : ℤ) (payload : JsonObject) (is_admin : Bool)
      → Preserves P (create p user payload is_admin)
  unfolding create prepared
  create-Preserves user payload is_admin =
      let params = validate_generation_params (from_json p.calendar payload) in
      step P (require_user user) _ (guard-Preserves P _ _) λ u. or_failure-Preserves params.0 _ (
        step P _ _ (check_active-Preserves user is_admin) λ u.
          step P _ _ (call-Preserves P _ k.now_kept) λ now.
            step P _ _ (request_id-Preserves params.1.request_id) λ request_id.
              step P _ _ (or_return-Preserves P _ (k.request_kept request_id user)) λ existing.
                insert_unless-Preserves user (prepared user now request_id params.1) refl existing)

  cleanup-Preserves : (id : ℤ) → Preserves P (redis_cleanup p id)
  unfolding redis_cleanup
  cleanup-Preserves id =
      try_catch_all-Preserves P _ _
        (step P _ _ (call-Preserves P _ k.redis_kept) λ available. when-Preserves P available _ (
          step P _ _ (call-Preserves P _ (k.queue_kept _))
            λ gone. call-Preserves P _ (k.lease_kept _)))
        (done P _)

  after_cancel-Preserves :
      (user id : ℤ) (task : ImageGeneration) → Preserves P (after_cancel p user id task)
  unfolding after_cancel
  after_cancel-Preserves user id task = step P _ _ (cleanup-Preserves id) λ u.
      step P _ _ (call-Preserves P _ (k.publish_kept _)) λ u.
        step P _ _ (call-Preserves P _ (k.record_kept _)) λ u.
          step P _ _ (call-Preserves P _ (k.del_kept _))
            λ gone. step P _ _ (invalidate-Preserves p P k _) λ u. done P _

  pub cancel_by_id-Preserves : (user id : ℤ) → Preserves P (cancel_by_id p user id)
  unfolding cancel_by_id
  cancel_by_id-Preserves user id = step P _ _ (guard-Preserves P _ _) λ u.
      step P _ _ (or_return-Preserves P _ (k.find_kept _ _)) λ current.
        step P _ _ (or_error-Preserves P current _) λ image. step P _ _ (guard-Preserves P _ _) λ u.
          step P _ _ (or_return-Preserves P _ (k.cancel_kept _ _)) λ updated.
            step P _ _ (or_error-Preserves P updated _) λ task.
              try_catch-Preserves P _ _ (after_cancel-Preserves user id task) (fail-Preserves P _)

  after_retry-Preserves :
      (user id : ℤ) (task : ImageGeneration) → Preserves P (after_retry p user id task)
  unfolding after_retry
  after_retry-Preserves user id task = step P _ _ (call-Preserves P _ (k.publish_kept _)) λ u.
      step P _ _ (call-Preserves P _ (k.record_kept _)) λ u.
        step P _ _ (call-Preserves P _ (k.del_kept _)) λ gone.
          step P _ _ (invalidate-Preserves p P k _)
            λ u. step P _ _ (call-Preserves P _ (k.enqueue_kept _)) λ u. done P _

  pub retry_by_id-Preserves : (user id : ℤ) → Preserves P (retry_by_id p user id)
  unfolding retry_by_id
  retry_by_id-Preserves user id = step P _ _ (guard-Preserves P _ _) λ u.
      step P _ _ (or_return-Preserves P _ (k.find_kept _ _)) λ current.
        step P _ _ (or_error-Preserves P current _) λ image. step P _ _ (guard-Preserves P _ _) λ u.
          step P _ _ (or_return-Preserves P _ (k.retry_kept _ _)) λ updated.
            step P _ _ (or_error-Preserves P updated _) λ task.
              try_catch-Preserves P _ _ (after_retry-Preserves user id task) (fail-Preserves P _)

  pub delete_by_id-Preserves : (user id : ℤ) → Preserves P (delete_by_id p user id)
  unfolding delete_by_id
  delete_by_id-Preserves user id = step P _ _ (guard-Preserves P _ _) λ u.
      step P _ _ (or_return-Preserves P _ (k.find_kept _ _)) λ current.
        step P _ _ (or_error-Preserves P current _) λ image. step P _ _ (guard-Preserves P _ _) λ u.
          step P _ _ (or_return-Preserves P _ (k.delete_kept _ _)) λ deleted.
            step P _ _ (guard-Preserves P _ _) λ u.
              try_catch-Preserves P _ _
                (step P _ _
                  (when-Preserves P _ _ (
                    try_catch-Preserves P _ _
                      (step P _ _ (call-Preserves P _ (k.remove_kept _)) λ gone. done P _)
                      (done P _)))
                  λ u. step P _ _ (call-Preserves P _ (k.del_kept _)) λ gone.
                    step P _ _
                      (when-Preserves P _ _
                        (step P _ _ (call-Preserves P _ (k.del_kept _)) λ gone. done P _))
                      λ u. invalidate-Preserves p P k _)
                (fail-Preserves P _)
