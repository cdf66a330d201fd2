-- ===== src/Services/TaskEngine/Worker.antt =====
-- `processClaimedTask`, the lease keeper and `workerLoop` of Backend/src/services/task_engine.cpp.
use text2image.Base.{
  ℕ, zero, suc, ℤ, Bool, true, false, Option, none, some, List, [], ◌∷◌, Text, Result, ok, Action,
  ◌>>=◌, ◌>>◌, pure, if◌then◌else◌,
}
use text2image.Models.TaskStatus.{generating}
use text2image.Models.ImageGeneration.{ImageGeneration}
use text2image.Errors.Repo.{RepoError}
use text2image.Database.ImageRepo.Claims.{
  claim_next_task, claim_task_by_id, renew_lease, finish_claimed_task,
}
use text2image.Services.Effects.{Exception}
use text2image.Services.Redis.{Commands, is_available}
use text2image.Services.Redis.Queue.{dequeue_task}
use text2image.Services.Redis.Lease.{acquire_lease, release_lease}
use text2image.Services.Redis.Lease as Lease
use text2image.Services.Generation.{rescue}
use text2image.Services.Generation.Client.{generate, cleanup_orphaned_stored_image}
use text2image.Services.TaskEngine.{
  Engine, EnginePorts, TaskEngineConfig, on_repo, on_redis, on_rest, invalidate_all_for_task,
  release_redis_lease,
}
use text2image.Services.TaskEngine.Gate.{apply_model_health_gate}

module _ {S W : Type 0} (r : Commands S) (p : EnginePorts W) (config : TaskEngineConfig) where
  -- The lease in Redis, whose loss is only logged.
  unfoldable pub renew_redis_lease :
      ImageGeneration → Text → Action (Engine S W) Exception (Unit {0})
  unfolding rescue on_redis Lease.renew_lease
  renew_redis_lease task worker_id =
      let body = do
        up ← on_redis is_available
        let renewed = do
          kept ← on_redis (Lease.renew_lease r task.id worker_id config.lease_seconds)
          pure tt
        if up then renewed else pure tt
      in rescue body (λ e. pure tt)

  -- The claim is lost when the renewal answers that it changed no row.
  abbrev pub is_lost : Result RepoError Bool → Bool
  is_lost (ok false) = true
  is_lost _ = false

  -- The lease keeper, for the renewals that come due until it is stopped.
  unfoldable pub keep_lease : ℕ → ImageGeneration → Text → Action (Engine S W) Exception (Unit {0})
  unfolding renew_redis_lease on_repo renew_lease
  keep_lease zero task worker_id = pure tt
  keep_lease (suc due) task worker_id =
      let rest = keep_lease due task worker_id in
      do
        renew_redis_lease task worker_id
        renewed ← on_repo (renew_lease task.id task.user_id worker_id config.lease_seconds)
        if is_lost renewed then pure tt else rest

  -- What follows the attempt to finish the task.
  unfoldable pub after_finish :
      ImageGeneration
      → ImageGeneration
      → Result RepoError Bool
      → Action (Engine S W) Exception (Unit {0})
  unfolding on_rest cleanup_orphaned_stored_image invalidate_all_for_task
  after_finish task result (ok true) = do
    on_rest (p.record_task_status result.status)
    invalidate_all_for_task r p task.user_id task.id
    on_rest (p.publish_task_updated result)
  after_finish task result _ = on_rest (cleanup_orphaned_stored_image p.model result)

  -- `due` renewals come due while the model works; they and the call of the model touch different
  -- parts of the state.
  unfoldable pub generate_and_finish :
      ℕ → ImageGeneration → Text → Action (Engine S W) Exception (Unit {0})
  unfolding keep_lease on_rest on_repo generate finish_claimed_task release_redis_lease after_finish
  generate_and_finish due task worker_id = do
    keep_lease due task worker_id
    result ← on_rest (generate p.model task)
    finished ← on_repo (finish_claimed_task result)
    release_redis_lease r p task.id worker_id
    after_finish task result finished

  unfoldable pub process_claimed_task :
      ℕ → ImageGeneration → Text → Action (Engine S W) Exception (Unit {0})
  unfolding invalidate_all_for_task on_rest apply_model_health_gate generate_and_finish
  process_claimed_task due task worker_id = do
    invalidate_all_for_task r p task.user_id task.id
    on_rest p.decrement_worker_queue_depth
    on_rest (p.record_task_status generating)
    on_rest (p.publish_task_updated task)
    goes_on ← apply_model_health_gate r p task worker_id
    let generated = generate_and_finish due task worker_id
    if goes_on then generated else pure tt

  abbrev pub release_quietly : ℤ → Text → Action (Engine S W) Exception (Unit {0})
  release_quietly task_id worker_id = do
    gone ← on_redis (release_lease r task_id worker_id)
    pure tt

  -- What follows the claim of the task that Redis named.
  unfoldable pub after_claim :
      ℕ
      → ℤ
      → Text
      → Result RepoError (Option ImageGeneration)
      → Action (Engine S W) Exception (Unit {0})
  unfolding on_redis release_lease process_claimed_task
  after_claim due task_id worker_id (ok (some task)) = process_claimed_task due task worker_id
  after_claim due task_id worker_id _ = release_quietly task_id worker_id

  unfoldable pub work_on : ℕ → ℤ → Text → Action (Engine S W) Exception (Unit {0})
  unfolding on_redis on_repo acquire_lease claim_task_by_id after_claim
  work_on due task_id worker_id = do
    granted ← on_redis (acquire_lease r task_id worker_id config.lease_seconds)
    let claimed = do
      task ← on_repo (claim_task_by_id task_id worker_id config.lease_seconds)
      after_claim due task_id worker_id task
    if granted then claimed else pure tt

  abbrev pub work_if_dequeued : ℕ → Text → Option ℤ → Action (Engine S W) Exception (Unit {0})
  work_if_dequeued due worker_id none = pure tt
  work_if_dequeued due worker_id (some task_id) = work_on due task_id worker_id

  -- The branch of a worker that Redis feeds.
  unfoldable pub work_from_redis : ℕ → Text → Action (Engine S W) Exception (Unit {0})
  unfolding on_redis dequeue_task work_on
  work_from_redis due worker_id = do
    task_id ← on_redis (dequeue_task r)
    work_if_dequeued due worker_id task_id

  abbrev pub process_if_claimed :
      ℕ
      → Text
      → Result RepoError (Option ImageGeneration)
      → Action (Engine S W) Exception (Unit {0})
  process_if_claimed due worker_id (ok (some task)) = process_claimed_task due task worker_id
  process_if_claimed due worker_id _ = pure tt

  -- The branch without Redis.
  unfoldable pub work_from_database : ℕ → Text → Action (Engine S W) Exception (Unit {0})
  unfolding on_repo claim_next_task process_claimed_task
  work_from_database due worker_id = do
    task ← on_repo (claim_next_task worker_id config.lease_seconds)
    process_if_claimed due worker_id task

  -- One turn of `workerLoop`. What it throws is logged.
  unfoldable pub worker_turn : ℕ → Text → Action (Engine S W) Exception (Unit {0})
  unfolding rescue on_redis work_from_redis work_from_database
  worker_turn due worker_id =
      let body = do
        up ← on_redis is_available
        let from_redis = work_from_redis due worker_id
        let from_database = work_from_database due worker_id
        if up then from_redis else from_database
      in rescue body (λ e. pure tt)

  -- The loop, for the turns until it is stopped, each with the renewals that come due in it.
  unfoldable pub worker_loop : List ℕ → Text → Action (Engine S W) Exception (Unit {0})
  unfolding worker_turn
  worker_loop [] worker_id = pure tt
  worker_loop (due ∷ turns) worker_id =
      let rest = worker_loop turns worker_id in do worker_turn due worker_id; rest
