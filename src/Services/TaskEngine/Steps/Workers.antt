-- ===== src/Services/TaskEngine/Steps/Workers.antt =====
-- The turns of the workers and of the scanner act on the database by calls of the life cycle.
use text2image.Base.{
  refl, ℕ, zero, suc, ℤ, Bool, true, false, Option, none, some, List, [], ◌∷◌, Text, Result, ok,
  err,
}
use text2image.Models.TaskStatus.{generating}
use text2image.Models.ImageGeneration.{ImageGeneration}
use text2image.Errors.Repo.{RepoError}
use text2image.Database.ImageRepo.Calls.{
  run_call, claim_next_call, claim_id_call, renew_call, finish_call,
}
use text2image.Database.ImageRepo.Claims.{
  claim_next_task, claim_task_by_id, renew_lease, finish_claimed_task,
}
use text2image.Services.Yields.{Any}
use text2image.Services.Generation.Client.{generate, cleanup_orphaned_stored_image}
use text2image.Services.Generation.Laws.{any_key, IsResultOf, generate-Yields, may_fail}
use text2image.Services.Redis.{Commands, is_available}
use text2image.Services.Redis.Queue.{dequeue_task}
use text2image.Services.Redis.Lease.{acquire_lease, release_lease}
use text2image.Services.TaskEngine.{
  EnginePorts, TaskEngineConfig, on_repo, on_rest, invalidate_all_for_task,
}
use text2image.Services.TaskEngine.Gate.{apply_model_health_gate}
use text2image.Services.TaskEngine.Runs.{
  bind-Traced, then-Traced, if-Traced, rescue-Traced, rest-Traced, repo-Traced,
}
use text2image.Services.TaskEngine.Worker.{
  renew_redis_lease, is_lost, keep_lease, after_finish, generate_and_finish, process_claimed_task,
  release_quietly, after_claim, work_on, work_if_dequeued, work_from_redis, process_if_claimed,
  work_from_database, worker_turn, worker_loop,
}
use text2image.Services.Redis.Lease as Lease
use text2image.Services.TaskEngine.Steps.{
  IsTraced, nothing-Traced, port-Traced, port_then, redis_then, release_then, invalidate-Traced,
  gate-Traced,
}

module _ (vanished : ℤ → ℤ → Text) {S W : Type 0} (r : Commands S) (p : EnginePorts W) where
  module _ (config : TaskEngineConfig) where
    renew_redis-Traced :
        (task : ImageGeneration) (worker : Text)
        → IsTraced vanished r p (renew_redis_lease r p config task worker)
    unfolding renew_redis_lease
    renew_redis-Traced task worker =
        rescue-Traced vanished _ _
          (redis_then vanished r p is_available _ λ up.
            if-Traced vanished up _ _
              (redis_then vanished r p (Lease.renew_lease r task.id worker config.lease_seconds) _
                λ kept. nothing-Traced vanished r p tt)
              (nothing-Traced vanished r p tt))
          (λ x. nothing-Traced vanished r p tt)

    keep_lease-Traced :
        (due : ℕ) (task : ImageGeneration) (worker : Text)
        → IsTraced vanished r p (keep_lease r p config due task worker)
    unfolding keep_lease
    keep_lease-Traced zero task worker = nothing-Traced vanished r p tt
    keep_lease-Traced (suc due) task worker =
        then-Traced vanished (renew_redis_lease r p config task worker) _
          (renew_redis-Traced task worker)
          λ u.
            then-Traced vanished
              (on_repo (renew_lease task.id task.user_id worker config.lease_seconds)) _
              (repo-Traced vanished _ (renew_call task.id task.user_id worker config.lease_seconds)
                tt λ db. unfold run_call in refl)
              λ renewed.
                if-Traced vanished (is_lost r p config renewed) _ _ (nothing-Traced vanished r p tt)
                  (keep_lease-Traced due task worker)

    after_finish-Traced :
        (task result : ImageGeneration) (o : Result RepoError Bool)
        → IsTraced vanished r p (after_finish r p config task result o)
    unfolding after_finish
    after_finish-Traced task result (ok true) =
        port_then vanished r p (p.record_task_status result.status) _ λ u.
          then-Traced vanished (invalidate_all_for_task r p task.user_id task.id) _
            (invalidate-Traced vanished r p task.user_id task.id)
            λ v. port-Traced vanished r p (p.publish_task_updated result)
    after_finish-Traced task result (ok false) =
        port-Traced vanished r p (cleanup_orphaned_stored_image p.model result)
    after_finish-Traced task result (err x) =
        port-Traced vanished r p (cleanup_orphaned_stored_image p.model result)

    -- The result is finished, which makes the last call one of the life cycle.
    generate-Traced :
        (due : ℕ) (task : ImageGeneration) (worker : Text)
        → IsTraced vanished r p (generate_and_finish r p config due task worker)
    unfolding generate_and_finish
    generate-Traced due task worker =
        then-Traced vanished (keep_lease r p config due task worker) _
          (keep_lease-Traced due task worker)
          λ u.
            bind-Traced vanished (IsResultOf any_key task) Any (on_rest (generate p.model task)) _
              (rest-Traced vanished (IsResultOf any_key task) _
                (generate-Yields p.model any_key Any (may_fail p.model) task))
              λ result is_result.
                then-Traced vanished (on_repo (finish_claimed_task result)) _
                  (repo-Traced vanished _ (finish_call result) is_result.finished
                    λ db. unfold run_call in refl)
                  λ finished.
                    release_then vanished r p task.id worker _
                      λ v. after_finish-Traced task result finished

    process-Traced :
        (due : ℕ) (task : ImageGeneration) (worker : Text)
        → IsTraced vanished r p (process_claimed_task r p config due task worker)
    unfolding process_claimed_task
    process-Traced due task worker =
        then-Traced vanished (invalidate_all_for_task r p task.user_id task.id) _
          (invalidate-Traced vanished r p task.user_id task.id)
          λ u. port_then vanished r p p.decrement_worker_queue_depth _ λ v.
            port_then vanished r p (p.record_task_status generating) _ λ x.
              port_then vanished r p (p.publish_task_updated task) _ λ y.
                then-Traced vanished (apply_model_health_gate r p task worker) _
                  (gate-Traced vanished r p task worker)
                  λ goes_on.
                    if-Traced vanished goes_on _ _ (generate-Traced due task worker)
                      (nothing-Traced vanished r p tt)

    quietly-Traced :
        (id : ℤ) (worker : Text) → IsTraced vanished r p (release_quietly r p config id worker)
    quietly-Traced id worker =
        redis_then vanished r p (release_lease r id worker) _ λ gone. nothing-Traced vanished r p tt

    after_claim-Traced :
        (due : ℕ) (id : ℤ) (worker : Text) (o : Result RepoError (Option ImageGeneration))
        → IsTraced vanished r p (after_claim r p config due id worker o)
    unfolding after_claim
    after_claim-Traced due id worker (ok (some task)) = process-Traced due task worker
    after_claim-Traced due id worker (ok none) = quietly-Traced id worker
    after_claim-Traced due id worker (err x) = quietly-Traced id worker

    work_on-Traced :
        (due : ℕ) (id : ℤ) (worker : Text)
        → IsTraced vanished r p (work_on r p config due id worker)
    unfolding work_on
    work_on-Traced due id worker =
        redis_then vanished r p (acquire_lease r id worker config.lease_seconds) _ λ granted.
          if-Traced vanished granted _ _
            (then-Traced vanished (on_repo (claim_task_by_id id worker config.lease_seconds)) _
              (repo-Traced vanished _ (claim_id_call id worker config.lease_seconds) tt
                λ db. unfold run_call in refl)
              λ task. after_claim-Traced due id worker task)
            (nothing-Traced vanished r p tt)

    dequeued-Traced :
        (due : ℕ) (worker : Text) (o : Option ℤ)
        → IsTraced vanished r p (work_if_dequeued r p config due worker o)
    dequeued-Traced due worker none = nothing-Traced vanished r p tt
    dequeued-Traced due worker (some id) = work_on-Traced due id worker

    claimed-Traced :
        (due : ℕ) (worker : Text) (o : Result RepoError (Option ImageGeneration))
        → IsTraced vanished r p (process_if_claimed r p config due worker o)
    claimed-Traced due worker (ok (some task)) = process-Traced due task worker
    claimed-Traced due worker (ok none) = nothing-Traced vanished r p tt
    claimed-Traced due worker (err x) = nothing-Traced vanished r p tt

    pub worker_turn-Traced :
        (due : ℕ) (worker : Text) → IsTraced vanished r p (worker_turn r p config due worker)
    unfolding worker_turn work_from_redis work_from_database
    worker_turn-Traced due worker =
        rescue-Traced vanished _ _
          (redis_then vanished r p is_available _ λ up.
            if-Traced vanished up _ _
              (redis_then vanished r p (dequeue_task r) _ λ id. dequeued-Traced due worker id)
              (then-Traced vanished (on_repo (claim_next_task worker config.lease_seconds)) _
                (repo-Traced vanished _ (claim_next_call worker config.lease_seconds) tt
                  λ db. unfold run_call in refl)
                λ task. claimed-Traced due worker task))
          (λ x. nothing-Traced vanished r p tt)

    pub worker_loop-Traced :
        (turns : List ℕ) (worker : Text)
        → IsTraced vanished r p (worker_loop r p config turns worker)
    unfolding worker_loop
    worker_loop-Traced [] worker = nothing-Traced vanished r p tt
    worker_loop-Traced (due ∷ turns) worker =
        then-Traced vanished (worker_turn r p config due worker) _ (worker_turn-Traced due worker)
          λ u. worker_loop-Traced turns worker
