-- ===== src/Services/ImageService/Writes.antt =====
-- `create`, `cancelById`, `retryById` and `deleteById` of `ImageService`.
use text2image.Base.{
  ℤ, pos, ltb_ℤ, Bool, not, ◌&&◌, Option, none, some, [], ◌∷◌, ◌++◌, Text, bytes, is_empty,
  if◌then◌else◌, Result, ok, err, Action, ◌>>=◌, ◌>>◌, pure, fail, guard, when,
}
use text2image.Utils.Chrono.{Time}
use text2image.Models.TaskStatus.{queued, can_cancel, can_retry, can_delete}
use text2image.Models.ImageGeneration.{ImageGeneration, JsonObject, from_json}
use text2image.Errors.{
  ServiceError, number, service_error, too_many_requests, bad_request, conflict,
  internal_server_error,
}
use text2image.Services.Effects.{
  Exception, std_error, other_error, compute, Failure, returned, call, try_catch, try_catch_all,
  or_return, or_error,
}
use text2image.Services.CacheKeys.{decimal, meta_key, presign_key}
use text2image.Services.Ports.{Ports}
use text2image.Services.Validation.{validate_generation_params}
use text2image.Services.ImageService.{require_user, image_not_found, task_not_found, status_detail}
use text2image.Services.ImageService.Cache.{invalidate_list_cache_for, write_to_cache}

-- `RateLimitConfig{}.max_active_tasks_per_user`
abbrev pub default_max_active_tasks : ℤ
default_max_active_tasks = pos 3

abbrev pub max_active_or_default : Result Exception ℤ → Result Exception ℤ
max_active_or_default (ok n) = ok n
max_active_or_default (err (std_error what)) = ok default_max_active_tasks
max_active_or_default (err other_error) = err other_error

abbrev pub too_many_active_tasks : ℤ → ℤ → ServiceError
too_many_active_tasks max_active active_tasks =
    record (too_many_requests (bytes "too_many_active_tasks")
      (bytes "too many active image tasks, limit is " ++ decimal max_active)) {
        details =
            (bytes "maxActiveTasks", number max_active)
            ∷ (bytes "activeTasks", number active_tasks)
            ∷ [];
      }

-- The assignments between the checks and the look-up.
unfoldable pub prepared : ℤ → Time → Text → ImageGeneration → ImageGeneration
prepared user_id now request_id generation = record generation {
  user_id = user_id;
  created_at = now;
  request_id = request_id;
  status = queued;
  error_message = [];
  completed_at = none;
  image_url = [];
  image_bytes = [];
  generation_time = pos 0;
}

abbrev pub or_failure :
    {W A : Type 0} → Option ServiceError → Action W Failure A → Action W Failure A
or_failure none k = k
or_failure (some error) k = fail (returned error)

abbrev pub cancel_conflict : ServiceError
cancel_conflict = service_error conflict "task_cancel_conflict" "task cannot be canceled"

abbrev pub cancel_failed : ServiceError
cancel_failed = service_error internal_server_error "task_cancel_failed" "failed to cancel task"

abbrev pub retry_conflict : ServiceError
retry_conflict = service_error conflict "task_retry_conflict" "task cannot be retried"

abbrev pub retry_failed : ServiceError
retry_failed = service_error internal_server_error "task_retry_failed" "failed to retry task"

abbrev pub enqueue_failed : ServiceError
enqueue_failed =
    service_error internal_server_error "image_task_enqueue_failed" "failed to enqueue image task"

module _ {W : Type 0} (p : Ports W) where
  unfoldable pub max_active_tasks_per_user : Result Exception ℤ
  max_active_tasks_per_user = max_active_or_default p.load_max_active_tasks

  unfoldable pub check_active_tasks : ℤ → Bool → Action W Failure (Unit {0})
  unfolding max_active_tasks_per_user
  check_active_tasks user_id is_admin = compute max_active_tasks_per_user >>= λ max_active.
      when (not is_admin && ltb_ℤ (pos 0) max_active) (
        or_return (p.count_active_tasks user_id) >>= λ active_tasks.
        guard (ltb_ℤ active_tasks max_active)
          (returned (too_many_active_tasks max_active active_tasks)))

  abbrev pub request_id_or_new : Text → Action W Failure Text
  request_id_or_new request_id =
      if is_empty request_id then call p.build_request_id else pure request_id

  abbrev pub after_insert : ℤ → ImageGeneration → Action W Failure ImageGeneration
  after_insert user_id generation = call (p.record_task_status generation.status) >>= λ _.
      try_catch
        (call (p.publish_task_updated generation)
          >> (write_to_cache p (meta_key user_id generation.id) generation
              >> (invalidate_list_cache_for p user_id
                  >> (call (p.enqueue generation.id) >> pure generation))))
        (fail (returned enqueue_failed))

  abbrev pub insert_unless :
      ℤ → ImageGeneration → Option ImageGeneration → Action W Failure ImageGeneration
  insert_unless user_id generation (some existing) = pure existing
  insert_unless user_id generation none = or_return (p.insert_task generation) >>= λ inserted_id.
      after_insert user_id (record generation { id = inserted_id })

  unfoldable pub create : ℤ → JsonObject → Bool → Action W Failure ImageGeneration
  unfolding check_active_tasks
  create user_id payload is_admin =
      require_user user_id
      >> or_failure (validate_generation_params (from_json p.calendar payload)).0 (
          check_active_tasks user_id is_admin
          >> (call p.system_now >>= λ now.
              request_id_or_new
                (validate_generation_params (from_json p.calendar payload)).1.request_id
              >>= λ request_id. or_return (p.find_by_request_id request_id user_id) >>= λ existing.
                  insert_unless user_id
                    (prepared user_id now request_id
                      (validate_generation_params (from_json p.calendar payload)).1)
                    existing))

  abbrev pub cancel_not_allowed : ImageGeneration → ServiceError
  cancel_not_allowed image =
      record (service_error bad_request "task_cancel_not_allowed"
        "task is already completed and cannot be cancelled") {
          details = status_detail image.status;
        }

  -- The queue and the lease of the task in Redis are given up when Redis can be reached.
  unfoldable pub redis_cleanup : ℤ → Action W Failure (Unit {0})
  redis_cleanup id =
      try_catch_all
        (call p.redis_is_available >>= λ available.
          when available (call (p.remove_from_queue id) >>= λ _. call (p.force_release_lease id)))
        (pure tt)

  unfoldable pub after_cancel : ℤ → ℤ → ImageGeneration → Action W Failure ImageGeneration
  unfolding redis_cleanup
  after_cancel user_id id task =
      redis_cleanup id
      >> (call (p.publish_task_updated task)
          >> (call (p.record_task_status task.status)
              >> (call (p.cache_del (meta_key user_id id)) >>= λ _.
                  invalidate_list_cache_for p user_id >> pure task)))

  unfoldable pub cancel_by_id : ℤ → ℤ → Action W Failure ImageGeneration
  unfolding after_cancel
  cancel_by_id user_id id =
      require_user user_id
      >> (or_return (p.find_task id user_id) >>= λ current.
          or_error current task_not_found >>= λ image.
          guard (can_cancel image.status) (returned (cancel_not_allowed image))
          >> (or_return (p.cancel_task id user_id) >>= λ updated.
              or_error updated cancel_conflict >>= λ task.
              try_catch (after_cancel user_id id task) (fail (returned cancel_failed))))

  abbrev pub retry_not_allowed : ImageGeneration → ServiceError
  retry_not_allowed image =
      record (service_error conflict "task_retry_not_allowed"
        "only failed, timeout or canceled tasks can be retried") {
          details =
              status_detail image.status
              ++ ((bytes "retryCount", number image.retry_count)
                  ∷ (bytes "maxRetries", number image.max_retries)
                  ∷ []);
        }

  unfoldable pub after_retry : ℤ → ℤ → ImageGeneration → Action W Failure ImageGeneration
  after_retry user_id id task =
      call (p.publish_task_updated task)
      >> (call (p.record_task_status task.status)
          >> (call (p.cache_del (meta_key user_id id)) >>= λ _.
              invalidate_list_cache_for p user_id >> (call (p.enqueue id) >> pure task)))

  unfoldable pub retry_by_id : ℤ → ℤ → Action W Failure ImageGeneration
  unfolding after_retry
  retry_by_id user_id id =
      require_user user_id
      >> (or_return (p.find_task id user_id) >>= λ current.
          or_error current task_not_found >>= λ image.
          guard (can_retry image.status image.retry_count image.max_retries)
            (returned (retry_not_allowed image))
          >> (or_return (p.retry_task id user_id) >>= λ updated.
              or_error updated retry_conflict >>= λ task.
              try_catch (after_retry user_id id task) (fail (returned retry_failed))))

  abbrev delete_not_allowed : ImageGeneration → ServiceError
  delete_not_allowed image =
      record (service_error bad_request "task_delete_not_allowed"
        "only completed tasks can be deleted") { details = status_detail image.status }

  unfoldable pub delete_by_id : ℤ → ℤ → Action W Failure (Unit {0})
  delete_by_id user_id id =
      require_user user_id
      >> (or_return (p.find_task id user_id) >>= λ current.
          or_error current image_not_found >>= λ image.
          guard (can_delete image.status) (returned (delete_not_allowed image))
          >> (or_return (p.delete_task id user_id) >>= λ deleted.
              guard deleted (
                returned (
                  service_error conflict "task_delete_conflict"
                    "task cannot be deleted in its current state"))
              >> try_catch
                  (when (not (is_empty image.storage_key)) (
                      try_catch (call (p.remove_object image.storage_key) >>= λ _. pure tt)
                        (pure tt))
                    >> (call (p.cache_del (meta_key user_id id)) >>= λ _.
                        when (not (is_empty image.storage_key))
                          (call (p.cache_del (presign_key image.storage_key)) >>= λ _. pure tt)
                        >> invalidate_list_cache_for p user_id))
                  (fail (
                    returned (
                      service_error internal_server_error "image_delete_failed"
                        "failed to delete image")))))
