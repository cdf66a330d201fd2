-- ===== src/Services/TaskEngine/Steps.antt =====
-- Every operation of the task engine acts on the database by calls of the life cycle.
pub mod Workers
pub mod Scanning
use text2image.Base.{
  ◌≡◌, refl, ℕ, zero, suc, ℤ, Bool, true, false, Option, none, some, List, [], ◌∷◌, Text, Result,
  ok, err, Action, ◌>>=◌, ◌>>◌, pure, if◌then◌else◌,
}
use text2image.Models.TaskStatus.{queued, generating, failed}
use text2image.Models.ImageGeneration.{ImageGeneration}
use text2image.Errors.Repo.{RepoError}
use text2image.Database.ImageRepo.{find_queued_task_ids}
use text2image.Database.ImageRepo.Calls.{
  RepoCall, run_call, claim_next_call, claim_id_call, queued_ids_call, expire_returning_call,
  renew_call, finish_call, defer_call,
}
use text2image.Database.ImageRepo.Claims.{
  claim_next_task, claim_task_by_id, renew_lease, finish_claimed_task,
  defer_claimed_task_for_model_health,
}
use text2image.Database.ImageRepo.Leases.{ExpiredLease, expire_leases_returning_expired}
use text2image.Services.Effects.{Exception}
use text2image.Services.Yields.{Any, Any-Yields}
use text2image.Services.HealthGate.{
  GateDecision, GateAction, decide_for_generate, proceed, defer, fail_task,
}
use text2image.Services.Generation.{rescue}
use text2image.Services.Generation.Health.{check_health}
use text2image.Services.Generation.Client.{generate, cleanup_orphaned_stored_image}
use text2image.Services.Generation.Laws.{IsResultOf, generate-Yields}
use text2image.Services.Redis.{Commands, RedisConnection, is_available}
use text2image.Services.Redis.Queue.{enqueue_task, dequeue_task, rebuild_task_queue}
use text2image.Services.Redis.Lease.{acquire_lease, release_lease}
use text2image.Services.TaskEngine.{
  Engine, EnginePorts, TaskEngineConfig, on_repo, on_redis, on_rest, invalidate_all_for_task,
  release_redis_lease, send_to_redis, enqueue,
}
use text2image.Services.TaskEngine.Gate.{
  gate_failed_task, deferred_task, publish_if_finished, fail_at_gate, requeue_deferred,
  requeue_if_deferred, defer_at_gate, gated, apply_model_health_gate,
}
use text2image.Services.TaskEngine.Runs.{
  Runs, no_call, Traced, pure-Traced, bind-Traced, then-Traced, if-Traced, rescue-Traced,
  rescue_standard-Traced, redis-Traced, rest-Traced, repo-Traced,
}

module _ (vanished : ℤ → ℤ → Text) {S W : Type 0} (r : Commands S) (p : EnginePorts W) where
  abbrev pub IsTraced : {A : Type 0} → Action (Engine S W) Exception A → Type 0
  IsTraced m = Traced vanished m Any

  pub nothing-Traced : {A : Type 0} (a : A) → IsTraced (pure a)
  nothing-Traced a = pure-Traced vanished Any a tt

  pub port-Traced : {A : Type 0} (m : Action W Exception A) → IsTraced (on_rest m)
  port-Traced m = rest-Traced vanished Any m (Any-Yields m)

  -- A step of the rest of the world, and a step of Redis.
  pub port_then :
      {A B : Type 0} (m : Action W Exception A) (f : A → Action (Engine S W) Exception B)
      → ((a : A) → IsTraced (f a))
      → IsTraced (on_rest m >>= f)
  port_then m f k = then-Traced vanished (on_rest m) f (port-Traced m) k

  pub redis_then :
      {A B : Type 0} (m : Action (RedisConnection S) Exception A)
      (f : A → Action (Engine S W) Exception B)
      → ((a : A) → IsTraced (f a))
      → IsTraced (on_redis m >>= f)
  redis_then m f k = then-Traced vanished (on_redis m) f (redis-Traced vanished m) k

  pub invalidate-Traced : (user id : ℤ) → IsTraced (invalidate_all_for_task r p user id)
  unfolding invalidate_all_for_task
  invalidate-Traced user id = port_then (p.cache_del _) _ λ u. port-Traced _

  pub release-Traced : (id : ℤ) (worker : Text) → IsTraced (release_redis_lease r p id worker)
  unfolding release_redis_lease
  release-Traced id worker =
      rescue-Traced vanished _ _
        (redis_then is_available _ λ up.
          if-Traced vanished up _ _
            (redis_then (release_lease r id worker) _ λ gone. nothing-Traced tt)
            (nothing-Traced tt))
        (λ x. nothing-Traced tt)

  send-Traced : (id : ℤ) → IsTraced (send_to_redis r p id)
  unfolding send_to_redis
  send-Traced id =
      rescue-Traced vanished _ _
        (redis_then is_available _ λ up.
          if-Traced vanished up _ _
            (redis_then (enqueue_task r id) _
              λ u. port_then p.increment_worker_queue_depth _ λ v. nothing-Traced true)
            (nothing-Traced false))
        (λ x. nothing-Traced false)

  pub enqueue-Traced : (id : ℤ) → IsTraced (enqueue r p id)
  unfolding enqueue
  enqueue-Traced id = then-Traced vanished (send_to_redis r p id) _ (send-Traced id) λ sent.
      if-Traced vanished sent _ _ (nothing-Traced tt)
        (port_then p.increment_worker_queue_depth _ λ u. port-Traced _)

  publish-Traced :
      (task : ImageGeneration) (o : Result RepoError Bool)
      → IsTraced (publish_if_finished r p task o)
  publish-Traced task (ok true) = port-Traced _
  publish-Traced task (ok false) = nothing-Traced tt
  publish-Traced task (err x) = nothing-Traced tt

  fail-Traced :
      (d : GateDecision) (task : ImageGeneration) (worker : Text)
      → IsTraced (fail_at_gate r p d task worker)
  unfolding fail_at_gate
  fail-Traced d task worker = port_then p.model.clock_now _ λ now.
      port_then (p.record_task_status failed) _ λ u.
        then-Traced vanished (on_repo (finish_claimed_task (gate_failed_task d now task))) _
          (repo-Traced vanished _ (finish_call (gate_failed_task d now task)) refl
            λ db. unfold run_call in refl)
          λ finished.
            then-Traced vanished (release_redis_lease r p task.id worker) _
              (release-Traced task.id worker)
              λ v.
                then-Traced vanished (invalidate_all_for_task r p task.user_id task.id) _
                  (invalidate-Traced task.user_id task.id)
                  λ x.
                    then-Traced vanished
                      (publish_if_finished r p (gate_failed_task d now task) finished) _
                      (publish-Traced (gate_failed_task d now task) finished)
                      λ y. nothing-Traced false

  requeue-Traced :
      (d : GateDecision) (task : ImageGeneration) → IsTraced (requeue_deferred r p d task)
  unfolding requeue_deferred
  requeue-Traced d task = port_then (p.record_task_status queued) _ λ u.
      then-Traced vanished (invalidate_all_for_task r p task.user_id task.id) _
        (invalidate-Traced task.user_id task.id)
        λ v. port_then (p.publish_task_updated (deferred_task d task)) _ λ x.
          then-Traced vanished (enqueue r p task.id) _ (enqueue-Traced task.id) λ y. port-Traced _

  requeue_if-Traced :
      (d : GateDecision) (task : ImageGeneration) (o : Result RepoError Bool)
      → IsTraced (requeue_if_deferred r p d task o)
  requeue_if-Traced d task (ok true) = requeue-Traced d task
  requeue_if-Traced d task (ok false) = nothing-Traced tt
  requeue_if-Traced d task (err x) = nothing-Traced tt

  defer-Traced :
      (d : GateDecision) (task : ImageGeneration) (worker : Text)
      → IsTraced (defer_at_gate r p d task worker)
  unfolding defer_at_gate
  defer-Traced d task worker =
      then-Traced vanished
        (on_repo (
          defer_claimed_task_for_model_health task.id task.user_id worker d.failure_code d.message))
        _
        (repo-Traced vanished _ (defer_call task.id task.user_id worker d.failure_code d.message) tt
          λ db. unfold run_call in refl)
        λ deferred.
          then-Traced vanished (release_redis_lease r p task.id worker) _
            (release-Traced task.id worker)
            λ u.
              then-Traced vanished (requeue_if_deferred r p d task deferred) _
                (requeue_if-Traced d task deferred) λ v. nothing-Traced false

  pub release_then :
      {B : Type 0} (id : ℤ) (worker : Text) (f : Unit {0} → Action (Engine S W) Exception B)
      → ((a : Unit {0}) → IsTraced (f a))
      → IsTraced (release_redis_lease r p id worker >>= f)
  release_then id worker f k =
      then-Traced vanished (release_redis_lease r p id worker) f (release-Traced id worker) k

  gated-Traced :
      (d : GateDecision) (a : GateAction) (task : ImageGeneration) (worker : Text)
      → IsTraced (gated r p a (fail_at_gate r p d task worker) (defer_at_gate r p d task worker))
  gated-Traced d proceed task worker = nothing-Traced true
  gated-Traced d fail_task task worker = fail-Traced d task worker
  gated-Traced d defer task worker = defer-Traced d task worker

  pub gate-Traced :
      (task : ImageGeneration) (worker : Text) → IsTraced (apply_model_health_gate r p task worker)
  unfolding apply_model_health_gate
  gate-Traced task worker = port_then (check_health p.model) _ λ health.
      gated-Traced (decide_for_generate health task.retry_count)
        (decide_for_generate health task.retry_count).action task worker
