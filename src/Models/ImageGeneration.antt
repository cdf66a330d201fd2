-- ===== src/Models/ImageGeneration.antt =====
-- Backend/include/models/image_generation.h and Backend/src/models/image_generation.cpp.
-- An `int` or `int64_t` is a ℤ; the generation time, a `double` that the code only copies, resets
-- and compares with 0, is a ℤ of microseconds. A JSON object is what the code asks of it.
use text2image.Base.{ℤ, pos, to_int32, Option, none, some, List, [], ◌∷◌, String, Text, bytes}
use text2image.Utils.Chrono.{Time, Calendar, from_db_string}
use text2image.Models.TaskStatus.{TaskStatus, pending, status_from_string}

pub record ImageGeneration : Type 0 where
  pub id : ℤ
  pub user_id : ℤ
  pub request_id : Text
  pub prompt : Text
  pub negative_prompt : Text
  pub num_steps : ℤ
  pub height : ℤ
  pub width : ℤ
  pub seed : Option ℤ
  pub status : TaskStatus
  pub retry_count : ℤ
  pub max_retries : ℤ
  pub failure_code : Text
  pub worker_id : Text
  pub image_url : Text
  pub thumbnail_url : Text
  pub storage_key : Text
  pub image_bytes : Text
  pub error_message : Text
  pub generation_time : ℤ
  pub created_at : Time
  pub started_at : Option Time
  pub completed_at : Option Time
  pub cancelled_at : Option Time
  pub lease_expires_at : Option Time

-- The values that the members are initialised with.
abbrev pub default_generation : ImageGeneration
default_generation = record {
  id = pos 0;
  user_id = pos 0;
  request_id = [];
  prompt = [];
  negative_prompt = [];
  num_steps = pos 8;
  height = pos 768;
  width = pos 768;
  seed = none;
  status = pending;
  retry_count = pos 0;
  max_retries = pos 3;
  failure_code = [];
  worker_id = [];
  image_url = [];
  thumbnail_url = [];
  storage_key = [];
  image_bytes = [];
  error_message = [];
  generation_time = pos 0;
  created_at = 0;
  started_at = none;
  completed_at = none;
  cancelled_at = none;
  lease_expires_at = none;
}

-- A JSON object by its members: `contains(key) && at(key).is_string()` and so on, then `get`.
pub record JsonObject : Type 0 where
  pub string_at : Text → Option Text
  pub integer_at : Text → Option ℤ
  pub number_at : Text → Option ℤ

-- The first key under which a member of the wanted kind is found.
abbrev pub read_any : {A : Type 0} → (Text → Option A) → List Text → Option A
read_any at [] = none
read_any at (key ∷ keys) =
    let rest = read_any at keys in elim (at key) [ none ↦ rest | some value ↦ some value ]

abbrev pub read_string_any : JsonObject → List Text → Option Text
read_string_any j = read_any j.string_at

abbrev pub read_int64_any : JsonObject → List Text → Option ℤ
read_int64_any j = read_any j.integer_at

abbrev pub read_double_any : JsonObject → List Text → Option ℤ
read_double_any j = read_any j.number_at

abbrev pub read_int_any : JsonObject → List Text → Option ℤ
read_int_any j keys = elim (read_any j.integer_at keys) [ none ↦ none | some n ↦ some (to_int32 n) ]

abbrev pub read_time_any : Calendar → JsonObject → List Text → Option Time
read_time_any cal j keys = elim (read_string_any j keys) [
  | none ↦ none
  | some value ↦ from_db_string cal value
]

-- `if (const auto value = ...) field = *value;`
abbrev pub or_keep : {A : Type 0} → Option A → A → A
or_keep none old = old
or_keep (some value) old = value

abbrev pub or_keep_some : {A : Type 0} → Option A → Option A → Option A
or_keep_some none old = old
or_keep_some (some value) old = some value

abbrev pub or_keep_status : Option Text → TaskStatus → TaskStatus
or_keep_status none old = old
or_keep_status (some value) old = status_from_string value

abbrev pub keys : String → String → List Text
keys a b = bytes a ∷ bytes b ∷ []

abbrev pub key : String → List Text
key a = bytes a ∷ []

unfoldable pub from_json : Calendar → JsonObject → ImageGeneration
from_json cal j = record {
  id = or_keep (read_int64_any j (keys "id" "taskId")) (pos 0);
  user_id = or_keep (read_int64_any j (keys "user_id" "userId")) (pos 0);
  request_id = or_keep (read_string_any j (keys "request_id" "requestId")) [];
  prompt = or_keep (read_string_any j (key "prompt")) [];
  negative_prompt = or_keep (read_string_any j (keys "negative_prompt" "negativePrompt")) [];
  num_steps = or_keep (read_int_any j (keys "num_steps" "numSteps")) (pos 8);
  height = or_keep (read_int_any j (key "height")) (pos 768);
  width = or_keep (read_int_any j (key "width")) (pos 768);
  seed = or_keep_some (read_int_any j (key "seed")) none;
  status = or_keep_status (read_string_any j (key "status")) pending;
  retry_count = or_keep (read_int_any j (keys "retry_count" "retryCount")) (pos 0);
  max_retries = or_keep (read_int_any j (keys "max_retries" "maxRetries")) (pos 3);
  failure_code = or_keep (read_string_any j (keys "failure_code" "failureCode")) [];
  worker_id = or_keep (read_string_any j (keys "worker_id" "workerId")) [];
  image_url = or_keep (read_string_any j (keys "image_url" "imageUrl")) [];
  thumbnail_url = or_keep (read_string_any j (keys "thumbnail_url" "thumbnailUrl")) [];
  storage_key =
      or_keep (read_string_any j (bytes "storage_key" ∷ keys "storage_key" "storageKey")) [];
  image_bytes = or_keep (read_string_any j (keys "image_bytes" "imageBytes")) [];
  error_message = or_keep (read_string_any j (keys "error_message" "errorMessage")) [];
  generation_time = or_keep (read_double_any j (keys "generation_time" "generationTime")) (pos 0);
  created_at = or_keep (read_time_any cal j (keys "created_at" "createdAt")) 0;
  started_at = or_keep_some (read_time_any cal j (keys "started_at" "startedAt")) none;
  completed_at = or_keep_some (read_time_any cal j (keys "completed_at" "completedAt")) none;
  cancelled_at = or_keep_some (read_time_any cal j (keys "cancelled_at" "cancelledAt")) none;
  lease_expires_at =
      or_keep_some (read_time_any cal j (keys "lease_expires_at" "leaseExpiresAt")) none;
}
