-- ===== src/Services/TaskEngine/Gate.antt =====
-- `applyModelHealthGate` of Backend/src/services/task_engine.cpp.
use text2image.Base.{
  Bool, true, false, some, none, [], Text, Result, ok, Action, ◌>>=◌, ◌>>◌, pure, suc_ℤ,
}
use text2image.Models.TaskStatus.{queued, failed}
use text2image.Models.ImageGeneration.{ImageGeneration}
use text2image.Errors.Repo.{RepoError}
use text2image.Utils.Chrono.{Time}
use text2image.Database.ImageRepo.Claims.{finish_claimed_task, defer_claimed_task_for_model_health}
use text2image.Services.Effects.{Exception}
use text2image.Services.HealthGate.{
  GateDecision, GateAction, decide_for_generate, proceed, defer, fail_task,
}
use text2image.Services.Redis.{Commands}
use text2image.Services.Generation.Health.{check_health}
use text2image.Services.TaskEngine.{
  Engine, EnginePorts, on_repo, on_rest, invalidate_all_for_task, release_redis_lease, enqueue,
}

abbrev pub gate_failed_task : GateDecision → Time → ImageGeneration → ImageGeneration
gate_failed_task d now task = record task {
  status = failed;
  failure_code = d.failure_code;
  error_message = d.message;
  completed_at = some now;
}

abbrev pub deferred_task : GateDecision → ImageGeneration → ImageGeneration
deferred_task d task = record task {
  status = queued;
  retry_count = suc_ℤ task.retry_count;
  failure_code = d.failure_code;
  error_message = d.message;
  worker_id = [];
  started_at = none;
  lease_expires_at = none;
}

module _ {S W : Type 0} (r : Commands S) (p : EnginePorts W) where
  abbrev pub publish_if_finished :
      ImageGeneration → Result RepoError Bool → Action (Engine S W) Exception (Unit {0})
  publish_if_finished task (ok true) =
      on_rest (p.publish_task_updated (record task { worker_id = []; lease_expires_at = none }))
  publish_if_finished task _ = pure tt

  unfoldable pub fail_at_gate :
      GateDecision → ImageGeneration → Text → Action (Engine S W) Exception Bool
  unfolding on_repo on_rest finish_claimed_task release_redis_lease invalidate_all_for_task
  fail_at_gate d task worker_id = do
    now ← on_rest p.model.clock_now
    let failed_task = gate_failed_task d now task
    on_rest (p.record_task_status failed)
    finished ← on_repo (finish_claimed_task failed_task)
    release_redis_lease r p task.id worker_id
    invalidate_all_for_task r p task.user_id task.id
    publish_if_finished failed_task finished
    pure false

  -- What follows a deferral that has changed the row.
  unfoldable pub requeue_deferred :
      GateDecision → ImageGeneration → Action (Engine S W) Exception (Unit {0})
  unfolding on_rest invalidate_all_for_task enqueue
  requeue_deferred d task = do
    on_rest (p.record_task_status queued)
    invalidate_all_for_task r p task.user_id task.id
    on_rest (p.publish_task_updated (deferred_task d task))
    enqueue r p task.id
    on_rest (p.wait_for d.backoff)

  abbrev pub requeue_if_deferred :
      GateDecision
      → ImageGeneration
      → Result RepoError Bool
      → Action (Engine S W) Exception (Unit {0})
  requeue_if_deferred d task (ok true) = requeue_deferred d task
  requeue_if_deferred d task _ = pure tt

  unfoldable pub defer_at_gate :
      GateDecision → ImageGeneration → Text → Action (Engine S W) Exception Bool
  unfolding on_repo defer_claimed_task_for_model_health release_redis_lease requeue_deferred
  defer_at_gate d task worker_id = do
    deferred ← on_repo (
        defer_claimed_task_for_model_health task.id task.user_id worker_id d.failure_code d.message)
    release_redis_lease r p task.id worker_id
    requeue_if_deferred d task deferred
    pure false

  abbrev pub gated :
      GateAction
      → Action (Engine S W) Exception Bool
      → Action (Engine S W) Exception Bool
      → Action (Engine S W) Exception Bool
  gated proceed failing deferring = pure true
  gated fail_task failing deferring = failing
  gated defer failing deferring = deferring

  -- Whether the task goes on to the model service.
  unfoldable pub apply_model_health_gate :
      ImageGeneration → Text → Action (Engine S W) Exception Bool
  unfolding on_rest check_health decide_for_generate fail_at_gate defer_at_gate
  apply_model_health_gate task worker_id = do
    health ← on_rest (check_health p.model)
    let d = decide_for_generate health task.retry_count
    let failing = fail_at_gate d task worker_id
    let deferring = defer_at_gate d task worker_id
    gated d.action failing deferring
