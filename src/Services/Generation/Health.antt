-- ===== src/Services/Generation/Health.antt =====
-- `GenerationClient::checkHealth` of Backend/src/services/generation_client.cpp.
use text2image.Base.{
  ℤ, pos, leb_ℤ, ltb_ℤ, Bool, ◌||◌, none, some, ◌++◌, Text, bytes, is_empty, lower, eqb,
  if◌then◌else◌, Result, ok, err, Action, ◌>>=◌, ◌>>◌, pure, fail,
}
use text2image.Errors.Http.{HttpError, map_http_error, to_expected_body}
use text2image.Services.Effects.{Exception, std_error, other_error}
use text2image.Services.CacheKeys.{decimal}
use text2image.Services.HealthGate.{ImageHealthResult, default_health}
use text2image.Services.Generation.{ModelPorts, HealthJson, rescue, done, call_label}

-- `timeoutSeconds <= 0 ? 5 : timeoutSeconds`, and at most 10
abbrev pub health_timeout : ℤ → ℤ
health_timeout seconds =
    let positive = if leb_ℤ seconds (pos 0) then pos 5 else seconds in
    if ltb_ℤ (pos 10) positive then pos 10 else positive

abbrev unhealthy : Text → ImageHealthResult
unhealthy detail = record default_health { status = bytes "unhealthy"; detail = detail }

-- `std::max(0, n)`
abbrev pub at_least_zero : ℤ → ℤ
at_least_zero n = if ltb_ℤ n (pos 0) then pos 0 else n

unfoldable pub health_status : Text → Bool → Text
health_status remote model_loaded =
    if eqb remote (bytes "healthy") || eqb remote (bytes "ok") || eqb remote (bytes "success")
    then bytes "healthy"
    else if eqb remote (bytes "busy")
        || eqb remote (bytes "loading")
        || eqb remote (bytes "unhealthy")
    then remote
    else if model_loaded
    then bytes "healthy"
    else bytes "unhealthy"

abbrev member : {A : Type 0} → Result Text A → Action ImageHealthResult Text A
member value r = (value, r)

abbrev set_health :
    (ImageHealthResult → ImageHealthResult) → Action ImageHealthResult Text (Unit {0})
set_health f r = (ok tt, f r)

-- What is read of the report is written member by member: a member of another kind throws, and what
-- was written before it stays.
unfoldable pub read_health : HealthJson → Action ImageHealthResult Text (Unit {0})
unfolding health_status
read_health j = do
  status ← member j.status
  model_loaded ← member j.model_loaded
  set_health (λ r. record r { model_loaded = model_loaded })
  active_kind ← member j.active_kind
  set_health (λ r. record r {
    active_kind = if is_empty active_kind then bytes "none" else lower active_kind;
  })
  active ← member j.active_generations
  set_health (λ r. record r { active_generations = at_least_zero active })
  maximum ← member j.max_concurrent_generations
  set_health (λ r. record r {
    max_concurrent_generations = at_least_zero maximum;
    status = health_status (lower status) model_loaded;
    detail = lower status;
  })

-- The handler of `std::exception`.
abbrev pub with_exception : Text → ImageHealthResult → ImageHealthResult
with_exception what r = record r { status = bytes "unhealthy"; detail = what }

abbrev pub read_result : Result Text (Unit {0}) × ImageHealthResult → ImageHealthResult
read_result (ok _, r) = r
read_result (err what, r) = with_exception what r

abbrev pub unhealthy_or_rethrow : {W : Type 0} → Exception → Action W Exception ImageHealthResult
unhealthy_or_rethrow (std_error what) = pure (with_exception what default_health)
unhealthy_or_rethrow other_error = fail other_error

module _ {W : Type 0} (p : ModelPorts W) where
  unfoldable pub health_of_body : Result HttpError Text → ImageHealthResult
  unfolding map_http_error read_health
  health_of_body (err e) = unhealthy (map_http_error e).message
  health_of_body (ok body) =
      if is_empty body
      then unhealthy (bytes "empty response body")
      else elim (p.parse_health body) [
        | none ↦ unhealthy (bytes "invalid json response")
        | some j ↦ read_result (read_health j default_health)
      ]

  -- The try block and its handler of `std::exception`.
  unfoldable pub check_health : Action W Exception ImageHealthResult
  unfolding rescue to_expected_body decimal health_of_body
  check_health =
      let body = do
        service_url ← done p.service_url
        seconds ← done p.health_timeout_seconds
        raw ← p.http_get (service_url ++ bytes "/health") (health_timeout seconds)
        p.observe_model_service_call (bytes "/health") (call_label raw)
        pure (health_of_body (to_expected_body decimal raw))
      in rescue body unhealthy_or_rethrow
