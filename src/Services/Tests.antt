-- ===== src/Services/Tests.antt =====
-- The theorems about the services at work.
use text2image.Base.{
  map, pos, ◌≡◌, refl, ◌<ℤ◌, ◌⊎◌, ◌↔◌, true, false, none, some, [], List, ◌∷◌, Text, ok, arith,
  bytes, eqb,
}
use text2image.Utils.Chrono.{seconds}
use text2image.Models.ImageGeneration.{ImageGeneration, default_generation}
use text2image.Models.TaskStatus.{queued, cancelled, can_cancel, can_retry}
use text2image.Services.HealthGate.{
  ImageHealthResult, default_health, decide_for_generate, defer, proceed, defer_or_fail,
  is_healthy_status,
}
use text2image.Services.HealthGate.Laws.{CanServe, decide-defer, decide-proceed}
use text2image.Services.RefreshTokens.{Store, store, consume}
use text2image.Services.RefreshTokens.Laws.{consume-store}
use text2image.Services.EventHub.{Hub, empty_hub, subscribe, unsubscribe, receives}
use text2image.Services.EventHub.Laws.{
  Reaches, start, subscribes, receives_one_user, receives-unsubscribe,
}
use text2image.Services.Validation.{validate_generation_params}
use text2image.Services.Validation.Laws.{IsAccepted, validate_generation_params-IsAccepted}
use text2image.Services.Effects.{try_catch, try_catch_all, or_return, call, or_error}
use text2image.Services.ImageService.Cache.{invalidate_list_cache_for, presign_list_images_in_place}
use text2image.Services.ImageService.Presign.{unsigned, presign_list_images_in_place-unsigned}
use text2image.Services.Samples.{World, sample_ports, sample_world, waiting_task, failed_task}
use text2image.Services.ImageService.Reads.{get_binary_by_id}
use text2image.Services.ImageService.Writes.{
  cancel_by_id, retry_by_id, delete_by_id, redis_cleanup, after_cancel, after_retry,
}
use text2image.Services.ImageService.Errors.{IsContained, operations-IsContained}
use text2image.Services.ImageService.Success.{IsChange, cancel_by_id-IsChange, retry_by_id-IsChange}

abbrev loading_health : ImageHealthResult
loading_health = record default_health { status = bytes "Loading" }

abbrev healthy : ImageHealthResult
healthy = record default_health { status = bytes "ok" }

defers : (decide_for_generate loading_health (pos 2)).action ≡ defer
unfolding decide_for_generate defer_or_fail is_healthy_status eqb bytes
defers = refl

decide-defer_example :
    (pos 2 <ℤ pos 9)
    × (((decide_for_generate loading_health (pos 2)).backoff ≡ 5)
        ⊎ ((decide_for_generate loading_health (pos 2)).backoff ≡ 30))
decide-defer_example = decide-defer loading_health (pos 2) defers

goes_on : (decide_for_generate healthy (pos 0)).action ≡ proceed
unfolding decide_for_generate defer_or_fail is_healthy_status eqb bytes
goes_on = refl

decide-proceed_example : CanServe healthy
decide-proceed_example = decide-proceed healthy (pos 0) goes_on

abbrev token : Text
token = 116 ∷ []

abbrev sample_store : Store
sample_store = store (seconds 100) token (pos 7) (pos 60) []

consume-store_example : (consume (seconds 120) token sample_store).0 ≡ some (pos 7)
consume-store_example =
    consume-store [] token (pos 7) (pos 60) (seconds 100) (seconds 120) (omega arith)

abbrev sample_hub : Hub
sample_hub = subscribe (pos 7) 1 empty_hub

sample_hub-Reaches : Reaches sample_hub
sample_hub-Reaches = subscribes (pos 7) 1 empty_hub start refl

sample_receives : receives (pos 7) 1 sample_hub ≡ true
unfolding receives subscribe
sample_receives = refl

receives_one_user_example : pos 7 ≡ pos 7
receives_one_user_example =
    receives_one_user sample_hub (pos 7) (pos 7) 1 sample_hub-Reaches sample_receives
      sample_receives

receives-unsubscribe_example :
    (receives (pos 7) 1 (unsubscribe 1 sample_hub) ≡ false)
    × (receives (pos 7) 2 (unsubscribe 1 sample_hub) ≡ receives (pos 7) 2 sample_hub)
receives-unsubscribe_example =
    receives-unsubscribe sample_hub (pos 7) 1 2 sample_hub-Reaches (λ e. ground arith)

abbrev drawing : ImageGeneration
drawing = record default_generation { prompt = b' ' ∷ b'c' ∷ b'a' ∷ b't' ∷ []; seed = some (pos 5) }

validate_generation_params-IsAccepted_example :
    ((validate_generation_params drawing).0 ≡ none)
    ↔ IsAccepted (validate_generation_params drawing).1
validate_generation_params-IsAccepted_example = validate_generation_params-IsAccepted drawing

operations-IsContained_example :
    IsContained (cancel_by_id sample_ports (pos 7) (pos 1) sample_world)
    × IsContained (retry_by_id sample_ports (pos 7) (pos 1) sample_world)
    × IsContained (delete_by_id sample_ports (pos 7) (pos 1) sample_world)
    × IsContained (get_binary_by_id sample_ports (pos 7) (pos 1) sample_world)
operations-IsContained_example = operations-IsContained sample_ports (pos 7) (pos 1) sample_world

abbrev cancelled_task : ImageGeneration
cancelled_task = record waiting_task { status = cancelled }

abbrev retried_task : ImageGeneration
retried_task = record failed_task { status = queued }

abbrev cancelled_world : World
cancelled_world = record { tasks = cancelled_task ∷ failed_task ∷ []; enqueued = [] }

abbrev retried_world : World
retried_world = record { tasks = waiting_task ∷ retried_task ∷ []; enqueued = pos 2 ∷ [] }

cancels :
    cancel_by_id sample_ports (pos 7) (pos 1) sample_world ≡ (ok cancelled_task, cancelled_world)
unfolding cancel_by_id after_cancel try_catch try_catch_all or_return call or_error redis_cleanup
    invalidate_list_cache_for
cancels = refl

cancel_by_id-IsChange_example :
    IsChange
      (sample_ports.find_task (pos 1) (pos 7))
      (sample_ports.cancel_task (pos 1) (pos 7))
      (λ i. can_cancel i.status)
      (pos 7)
      sample_world
      cancelled_task
cancel_by_id-IsChange_example =
    cancel_by_id-IsChange sample_ports (pos 7) (pos 1) sample_world cancelled_task cancelled_world
      cancels

retries : retry_by_id sample_ports (pos 7) (pos 2) sample_world ≡ (ok retried_task, retried_world)
unfolding retry_by_id after_retry try_catch or_return call or_error invalidate_list_cache_for
retries = refl

retry_by_id-IsChange_example :
    IsChange
      (sample_ports.find_task (pos 2) (pos 7))
      (sample_ports.retry_task (pos 2) (pos 7))
      (λ i. can_retry i.status i.retry_count i.max_retries)
      (pos 7)
      sample_world
      retried_task
retry_by_id-IsChange_example =
    retry_by_id-IsChange sample_ports (pos 7) (pos 2) sample_world retried_task retried_world
      retries

presign_list_images_in_place-unsigned_example :
    (signed : List ImageGeneration) × (v : World) × (presign_list_images_in_place sample_ports
        (waiting_task ∷ failed_task ∷ [])
        sample_world
      ≡ (ok signed, v))
    × (map unsigned signed ≡ map unsigned (waiting_task ∷ failed_task ∷ []))
presign_list_images_in_place-unsigned_example =
    presign_list_images_in_place-unsigned sample_ports (waiting_task ∷ failed_task ∷ [])
      sample_world
