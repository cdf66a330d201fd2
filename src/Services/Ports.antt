-- ===== src/Services/Ports.antt =====
-- What the image service calls: `IImageRepo`, `cache::ICacheClient`, `IImageStorage`, the event hub,
-- the metrics, the task engine, Redis, the clock, the random numbers and the JSON library.
-- Backend/include/database/i_image_repo.h, Backend/include/services/i_cache_client.h,
-- Backend/include/models/i_image_storage.h. A repository reports its errors as values, as its
-- interface says; any other call may throw.
use text2image.Base.{ℕ, ℤ, Bool, Option, List, Text, Result, Action}
use text2image.Utils.Chrono.{Time, Calendar}
use text2image.Models.TaskStatus.{TaskStatus}
use text2image.Models.ImageGeneration.{ImageGeneration, JsonObject}
use text2image.Errors.Repo.{RepoError}
use text2image.Services.Effects.{Exception}

-- Backend/include/services/image_service_types.h
pub record ImageListResult : Type 0 where
  pub content : List ImageGeneration
  pub total_elements : ℤ

pub record Ports (W : Type 0) : Type 0 where
  -- `IImageRepo`
  pub count_active_tasks : ℤ → Action W RepoError ℤ
  pub find_by_request_id : Text → ℤ → Action W RepoError (Option ImageGeneration)
  pub insert_task : ImageGeneration → Action W RepoError ℤ
  pub find_task : ℤ → ℤ → Action W RepoError (Option ImageGeneration)
  pub find_tasks : ℤ → ℤ → ℤ → Action W RepoError ImageListResult
  pub find_tasks_by_status : ℤ → TaskStatus → ℤ → ℤ → Action W RepoError ImageListResult
  pub cancel_task : ℤ → ℤ → Action W RepoError (Option ImageGeneration)
  pub retry_task : ℤ → ℤ → Action W RepoError (Option ImageGeneration)
  pub delete_task : ℤ → ℤ → Action W RepoError Bool
  -- `ICacheClient`
  pub cache_get : Text → Action W Exception (Option Text)
  pub cache_setex : Text → Text → ℕ → Action W Exception Bool
  pub cache_del : Text → Action W Exception Bool
  pub bump_version : Text → Text → Action W Exception (Option ℤ)
  pub get_version : Text → Text → Action W Exception ℤ
  -- `IImageStorage`
  pub get_bytes : Text → Action W Exception (Option Text)
  pub presign_url : Text → Action W Exception Text
  pub remove_object : Text → Action W Exception Bool
  pub content_type_for_key : Text → Action W Exception Text
  -- `TaskEventHub`, `MetricsRegistry`, `TaskEngine`, `RedisClient`
  pub publish_task_updated : ImageGeneration → Action W Exception (Unit {0})
  pub record_task_status : TaskStatus → Action W Exception (Unit {0})
  pub enqueue : ℤ → Action W Exception (Unit {0})
  pub redis_is_available : Action W Exception Bool
  pub remove_from_queue : ℤ → Action W Exception Bool
  pub force_release_lease : ℤ → Action W Exception (Unit {0})
  -- the clock, `buildRequestId`, the jitter of a list's time to live, the configuration
  pub system_now : Action W Exception Time
  pub build_request_id : Action W Exception Text
  pub list_ttl_jitter : Action W Exception ℕ
  pub presign_ttl : ℕ
  pub load_max_active_tasks : Result Exception ℤ
  -- the JSON library: printing throws on text that is not UTF-8, parsing on text that is not JSON
  pub calendar : Calendar
  pub dump_image : ImageGeneration → Result Exception Text
  pub dump_list : ImageListResult → Result Exception Text
  pub parse_image : Text → Result Exception JsonObject
  pub parse_list : Text → Result Exception (ℤ × List JsonObject)
