-- ===== src/Services/HealthGate.antt =====
-- Backend/src/services/model_health_gate.cpp: whether a claimed task goes to the model service now.
pub mod Laws
use text2image.Base.{
  ℕ, ◌-◌, ℤ, pos, leb_ℤ, ltb_ℤ, not, ◌||◌, Bool, true, false, List, [], ◌∷◌, ◌++◌, String, Text,
  bytes, eqb, is_empty, lower, if◌then◌else◌,
}
use text2image.Models.FailureCode.{model_service_unavailable}

-- Backend/include/services/image_service_types.h
pub record ImageHealthResult : Type 0 where
  pub status : Text
  pub model_loaded : Bool
  pub active_kind : Text
  pub active_generations : ℤ
  pub max_concurrent_generations : ℤ
  pub detail : Text

-- The values that the members are initialised with.
abbrev pub default_health : ImageHealthResult
default_health = record {
  status = bytes "unhealthy";
  model_loaded = false;
  active_kind = bytes "none";
  active_generations = pos 0;
  max_concurrent_generations = pos 0;
  detail = [];
}

pub data GateAction : Type 0 where
  proceed defer fail_task : GateAction

pub record GateDecision : Type 0 where
  pub action : GateAction
  pub backoff : ℕ  -- seconds
  pub failure_code : Text
  pub message : Text

-- `GateDecision{}`
abbrev pub proceed_decision : GateDecision
proceed_decision = record { action = proceed; backoff = 0; failure_code = []; message = [] }

abbrev pub max_model_health_attempts : ℕ
max_model_health_attempts = 10

abbrev pub unhealthy_backoff : ℕ
unhealthy_backoff = 5

abbrev pub loading_backoff : ℕ
loading_backoff = 30

abbrev pub has_exceeded_attempt_budget : ℤ → Bool
has_exceeded_attempt_budget retry_count = leb_ℤ (pos (max_model_health_attempts - 1)) retry_count

unfoldable pub health_message : ImageHealthResult → Text → Text
health_message health reason =
    if not (is_empty health.detail) then reason ++ (bytes ": " ++ health.detail) else reason

unfoldable pub defer_or_fail : ImageHealthResult → ℤ → ℕ → Text → GateDecision
defer_or_fail health retry_count backoff reason =
    if has_exceeded_attempt_budget retry_count
    then record {
      action = fail_task;
      backoff = 0;
      failure_code = model_service_unavailable;
      message = health_message health (bytes "model service unavailable");
    }
    else record {
      action = defer;
      backoff = backoff;
      failure_code = model_service_unavailable;
      message = health_message health reason;
    }

unfoldable pub busy_generation_conflicts : ImageHealthResult → Bool
busy_generation_conflicts health =
    if is_empty (lower health.active_kind) || eqb (lower health.active_kind) (bytes "none")
    then false
    else if not (ltb_ℤ (pos 0) health.max_concurrent_generations)
    then true
    else leb_ℤ health.max_concurrent_generations health.active_generations

unfoldable pub is_healthy_status : Text → Bool
is_healthy_status status =
    eqb status (bytes "healthy") || eqb status (bytes "ok") || eqb status (bytes "success")

unfoldable pub decide_for_generate : ImageHealthResult → ℤ → GateDecision
decide_for_generate health retry_count =
    if is_healthy_status (lower health.status)
    then proceed_decision
    else if eqb (lower health.status) (bytes "loading")
    then defer_or_fail health retry_count loading_backoff (bytes "model service is loading")
    else if eqb (lower health.status) (bytes "busy")
    then (if not (busy_generation_conflicts health)
        then proceed_decision
        else defer_or_fail health retry_count unhealthy_backoff (bytes "model service is busy"))
    else defer_or_fail health retry_count unhealthy_backoff (bytes "model service is unhealthy")
