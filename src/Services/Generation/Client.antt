-- ===== src/Services/Generation/Client.antt =====
-- `GenerationClient::generate` and `cleanupOrphanedStoredImage` of
-- Backend/src/services/generation_client.cpp: the call of the model service, the download of the
-- image, the settled status and the storage.
use text2image.Base.{
  ℤ, Bool, true, false, not, some, [], ◌++◌, Text, bytes, is_empty, if◌then◌else◌, Result, ok, err,
  Action, ◌>>=◌, ◌>>◌, pure,
}
use text2image.Models.TaskStatus.{
  TaskStatus, pending, queued, generating, failed, unknown, is_terminal, is_success,
}
use text2image.Models.ImageGeneration.{ImageGeneration}
use text2image.Models.FailureCode.{missing_image_payload, storage_write_failed}
use text2image.Errors.Http.{HttpError, to_expected_body}
use text2image.Services.Effects.{Exception, std_error, other_error}
use text2image.Services.CacheKeys.{decimal}
use text2image.Services.Generation.{
  ModelPorts, rescue, done, failed_with, with_answer, call_label, trace_headers, url_or_empty,
  timeout_or_default, mark_exception, resolved_url, with_image_status,
}

-- The body of an answer, or nothing where there is none.
abbrev body_or_empty : Result HttpError Text → Text
body_or_empty (ok body) = body
body_or_empty (err e) = []

-- The statuses that a result may not be left with.
abbrev is_open : TaskStatus → Bool
is_open unknown = true
is_open pending = true
is_open queued = true
is_open generating = true
is_open _ = false

abbrev pub settled : ImageGeneration → ImageGeneration
settled g =
    let message = bytes "model result did not include image data" in
    if is_open g.status
    then record g {
      status = failed;
      failure_code = missing_image_payload;
      error_message = if is_empty g.error_message then message else g.error_message;
    }
    else g

abbrev stored_result : ImageGeneration → Text → ImageGeneration
stored_result g key = record g {
  storage_key = key;
  image_url = bytes "/api/images/" ++ (decimal g.id ++ bytes "/binary");
  image_bytes = [];
}

module _ {W : Type 0} (p : ModelPorts W) where
  unfoldable pub download_image_bytes : Text → ℤ → Action W Exception Text
  unfolding to_expected_body decimal
  download_image_bytes url seconds = do
    raw ← p.http_get url seconds
    p.observe_model_service_call (bytes "/temp") (call_label raw)
    pure (body_or_empty (to_expected_body decimal raw))

  -- The body of the try block.
  unfoldable pub attempt : ImageGeneration → Action W Exception ImageGeneration
  unfolding with_answer to_expected_body decimal
  attempt g = do
    service_url ← done p.service_url
    seconds ← done p.timeout_seconds
    payload ← done (p.dump_payload g)
    raw ←
        p.post_json (service_url ++ bytes "/generate") seconds payload (trace_headers g.request_id)
    p.observe_model_service_call (bytes "/generate") (call_label raw)
    pure (with_answer p (to_expected_body decimal raw) g)

  -- The try block with its handlers.
  unfoldable pub call_model : ImageGeneration → Action W Exception ImageGeneration
  unfolding rescue attempt mark_exception
  call_model g = rescue (attempt g) (λ e. pure (mark_exception e g))

  unfoldable pub with_download : ImageGeneration → Action W Exception ImageGeneration
  unfolding download_image_bytes
  with_download g =
      let service_url = url_or_empty p.service_url in
      let seconds = timeout_or_default p.service_url p.timeout_seconds in
      let url = resolved_url service_url g.image_url in
      let fetched = do
        image ← download_image_bytes url seconds
        pure (record g { image_url = url; image_bytes = image })
      in if is_empty g.image_url then pure g else fetched

  -- `if (isTerminal(status)) completed_at = now();`
  unfoldable pub with_completion : ImageGeneration → Action W Exception ImageGeneration
  with_completion g =
      let stamped = do now ← p.clock_now; pure (record g { completed_at = some now })
      in if is_terminal g.status then stamped else pure g

  unfoldable pub missing_binary : ImageGeneration → Action W Exception ImageGeneration
  missing_binary g = do
    now ← p.clock_now
    let message = bytes "generation succeeded but image binary is missing"
    pure (record (failed_with missing_image_payload message g) { completed_at = some now })

  -- The handler of `std::exception`; another exception is not caught.
  unfoldable pub store_failed : ImageGeneration → Exception → Action W Exception ImageGeneration
  store_failed g other_error = done (err other_error)
  store_failed g (std_error what) = do
    now ← p.clock_now
    let message = bytes "generation succeeded but failed to store image: " ++ what
    pure (record (failed_with storage_write_failed message g) {
      completed_at = some now;
      storage_key = [];
      image_bytes = [];
      image_url = [];
    })

  unfoldable pub store_image_bytes : ImageGeneration → Action W Exception ImageGeneration
  unfolding rescue store_failed decimal
  store_image_bytes g =
      let stored = do
        key ← p.store_image g.user_id g.request_id g.image_bytes
        pure (stored_result g key)
      in rescue stored (store_failed g)

  unfoldable pub persist_generated_image : ImageGeneration → Action W Exception ImageGeneration
  unfolding missing_binary store_image_bytes
  persist_generated_image g =
      let stored = store_image_bytes g in
      let missing = missing_binary g in
      if not (is_success g.status)
      then pure g
      else if is_empty g.image_bytes
      then missing
      else stored

  unfoldable pub generate : ImageGeneration → Action W Exception ImageGeneration
  unfolding call_model with_download with_completion persist_generated_image
  generate task = do
    answered ← call_model task
    fetched ← with_download answered
    completed ← with_completion (settled (with_image_status fetched))
    persist_generated_image completed

  -- What is removed is only reported in the log.
  unfoldable pub cleanup_orphaned_stored_image : ImageGeneration → Action W Exception (Unit {0})
  unfolding rescue
  cleanup_orphaned_stored_image g =
      let removed = do gone ← p.remove_image g.storage_key; pure tt
      in let cleaned = rescue removed (λ e. pure tt) in
        if is_empty g.storage_key then pure tt else cleaned
