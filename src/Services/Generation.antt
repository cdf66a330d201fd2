-- ===== src/Services/Generation.antt =====
-- Backend/src/services/generation_client.cpp: how a claimed task becomes a result. The HTTP client,
-- the object storage, the clock, the configuration and the JSON library are given as ports.
pub mod Client
pub mod Health
pub mod HealthLaws
pub mod Laws
pub mod Samples
mod Tests
use text2image.Base.{
  ℕ, ℤ, pos, leb_ℤ, ltb_ℤ, Bool, true, false, not, ◌&&◌, ◌||◌, Option, none, some, List, [], ◌∷◌,
  ◌++◌, String, Text, bytes, is_empty, lower, starts_with, eqb, if◌then◌else◌, Result, ok, err,
  Action, ◌>>=◌, ◌>>◌, pure, fail, next,
}
use text2image.Utils.Chrono.{Time, Calendar}
use text2image.Utils.RequestId.{sanitize_request_id}
use text2image.Models.TaskStatus.{
  TaskStatus, pending, queued, generating, success, failed, cancelled, timeout, unknown,
  is_terminal, is_success, normalize_task_status,
}
use text2image.Models.ImageGeneration.{ImageGeneration, JsonObject, from_json}
use text2image.Models.FailureCode.{
  python_service_request_failed, python_service_empty_response, python_service_invalid_json,
  python_service_exception, python_service_unknown_exception, missing_image_payload,
  storage_write_failed,
}
use text2image.Errors.{ServiceError}
use text2image.Errors.Http.{HttpError, HttpResult, map_http_error, to_expected_body}
use text2image.Services.Effects.{Exception, std_error, other_error}
use text2image.Services.CacheKeys.{decimal}
use text2image.Services.HealthGate.{ImageHealthResult, default_health}

-- A JSON value that was parsed: its members, and those of its member `data` if that is an object.
pub record RemoteJson : Type 0 where
  pub members : JsonObject
  pub data_members : Option JsonObject

-- The health report of the model service, `healthJson.value(key, default)` member by member, where a
-- member of another kind throws the library's exception, with its text.
pub record HealthJson : Type 0 where
  pub status : Result Text Text
  pub model_loaded : Result Text Bool
  pub active_kind : Result Text Text
  pub active_generations : Result Text ℤ
  pub max_concurrent_generations : Result Text ℤ

pub record ModelPorts (W : Type 0) : Type 0 where
  -- `IHttpClient`: the address and the timeout; for a post, the body and the headers as well
  pub http_get : Text → ℤ → Action W Exception HttpResult
  pub post_json : Text → ℤ → Text → List Text → Action W Exception HttpResult
  pub observe_model_service_call : Text → Text → Action W Exception (Unit {0})
  -- `ImageStorage::store` and `ImageStorage::remove`
  pub store_image : ℤ → Text → Text → Action W Exception Text
  pub remove_image : Text → Action W Exception Bool
  pub clock_now : Action W Exception Time
  -- the members `url` and `timeout_seconds` of `python_service`
  pub service_url : Result Exception Text
  pub timeout_seconds : Result Exception ℤ
  pub health_timeout_seconds : Result Exception ℤ
  pub model_calendar : Calendar
  pub dump_payload : ImageGeneration → Result Exception Text
  pub parse_remote : Text → Option RemoteJson
  pub parse_health : Text → Option HealthJson

abbrev pub caught :
    {W A : Type 0}
    → (Exception → Action W Exception A)
    → Result Exception A × W
    → Result Exception A × W
caught handler (ok a, w) = (ok a, w)
caught handler (err e, w) = handler e w

-- `try { body } catch (const std::exception&) { ... } catch (...) { ... }`
unfoldable pub rescue :
    {W A : Type 0}
    → Action W Exception A
    → (Exception → Action W Exception A)
    → Action W Exception A
rescue body handler w = caught handler (body w)

abbrev pub done : {W A : Type 0} → Result Exception A → Action W Exception A
done r w = (r, w)

abbrev pub failed_with : Text → Text → ImageGeneration → ImageGeneration
failed_with code message g = record g {
  status = failed;
  failure_code = code;
  error_message = message;
}

-- `if (!text.empty()) field = text;`
abbrev pub unless_empty : Text → Text → Text
unless_empty new old = if is_empty new then old else new

abbrev pub unless_unknown : TaskStatus → TaskStatus → TaskStatus
unless_unknown unknown old = old
unless_unknown new old = new

abbrev pub text_or_empty : Option Text → Text
text_or_empty none = []
text_or_empty (some t) = t

abbrev pub is_absolute_url : Text → Bool
is_absolute_url url = starts_with url (bytes "http://") || starts_with url (bytes "https://")

abbrev pub or_else : Option Text → Option Text → Option Text
or_else none other = other
or_else (some t) other = some t

abbrev image_if_absolute : Option Text → Text
image_if_absolute none = []
image_if_absolute (some image) = if is_absolute_url image then image else []

abbrev pub merged_status : Option Text → TaskStatus → TaskStatus → TaskStatus
merged_status (some raw) remote old = unless_unknown (normalize_task_status raw) old
merged_status none remote old = unless_unknown remote old

abbrev pub merged_url : JsonObject → Text → Text → Text
merged_url payload remote old =
    let known = unless_empty remote old in
    let named =
      text_or_empty
        (or_else (payload.string_at (bytes "image_url")) (payload.string_at (bytes "url"))) in
    if not (is_empty known)
    then known
    else if not (is_empty named)
    then named
    else image_if_absolute (payload.string_at (bytes "image"))

abbrev pub payload_of : RemoteJson → JsonObject
payload_of j = elim j.data_members [ none ↦ j.members | some d ↦ d ]

unfoldable pub merge_payload : Calendar → JsonObject → ImageGeneration → ImageGeneration
merge_payload cal payload g =
    let remote = from_json cal payload in
    record g {
      request_id = unless_empty remote.request_id g.request_id;
      status = merged_status (payload.string_at (bytes "status")) remote.status g.status;
      image_url = merged_url payload remote.image_url g.image_url;
      error_message = unless_empty remote.error_message g.error_message;
      generation_time =
          if ltb_ℤ (pos 0) remote.generation_time
          then remote.generation_time
          else g.generation_time;
    }

unfoldable pub merge_remote_result : Calendar → RemoteJson → ImageGeneration → ImageGeneration
unfolding merge_payload
merge_remote_result cal j g = merge_payload cal (payload_of j) g

abbrev pub mark_http_request_failed : ImageGeneration → ServiceError → ImageGeneration
mark_http_request_failed g error = failed_with python_service_request_failed error.message g

-- What the body of the answer makes of the generation.
unfoldable pub with_answer :
    {W : Type 0} → ModelPorts W → Result HttpError Text → ImageGeneration → ImageGeneration
unfolding merge_remote_result
with_answer p (err e) g = mark_http_request_failed g (map_http_error e)
with_answer p (ok body) g =
    if is_empty body
    then failed_with python_service_empty_response (bytes "python service returned empty response")
        g
    else elim (p.parse_remote body) [
      | none ↦
          failed_with python_service_invalid_json (bytes "python service returned invalid json") g
      | some j ↦ merge_remote_result p.model_calendar j g
    ]

abbrev pub call_label : HttpResult → Text
call_label r = elim r.failure [ none ↦ decimal r.status_code | some e ↦ bytes "error" ]

abbrev pub trace_headers : Text → List Text
trace_headers request_id =
    let trace_id = sanitize_request_id request_id in
    if is_empty trace_id then [] else (bytes "X-Request-Id: " ++ trace_id) ∷ []

-- `serviceUrl` and `timeoutSeconds` as the try block leaves them.
abbrev pub url_or_empty : Result Exception Text → Text
url_or_empty (ok url) = url
url_or_empty (err e) = []

abbrev pub timeout_or_default : Result Exception Text → Result Exception ℤ → ℤ
timeout_or_default (ok url) (ok seconds) = seconds
timeout_or_default _ _ = pos 900

-- `std::format("python service exception: {}", ex.what())`, and the arm for any other exception
unfoldable pub mark_exception : Exception → ImageGeneration → ImageGeneration
mark_exception (std_error what) g =
    failed_with python_service_exception (bytes "python service exception: " ++ what) g
mark_exception other_error g =
    failed_with python_service_unknown_exception (bytes "python service unknown exception") g

-- `if (!isAbsoluteHttpUrl && !serviceUrl.empty() && url.starts_with("/"))`
abbrev pub resolved_url : Text → Text → Text
resolved_url service_url url =
    if not (is_absolute_url url) && not (is_empty service_url) && starts_with url (bytes "/")
    then service_url ++ url
    else url

-- A result with image bytes is a success, unless it has failed.
abbrev pub with_image_status : ImageGeneration → ImageGeneration
with_image_status g =
    if not (is_empty g.image_bytes) && not (is_failed_status g.status)
    then record g { status = success; failure_code = []; error_message = [] }
    else g
  where
    is_failed_status : TaskStatus → Bool
    is_failed_status failed = true
    is_failed_status _ = false
