-- ===== src/Services/TaskEngine.antt =====
-- Backend/src/services/task_engine.cpp: the workers that take tasks from the queue and bring them to
-- their end, and the scanner of expired leases. The engine's state is a database session, the Redis
-- client and the rest of the world, which the ports act on.
pub mod Config
pub mod Gate
pub mod Worker
pub mod Scanner
pub mod Runs
pub mod Steps
pub mod Safety
pub mod Leads
pub mod Progress
pub mod Liveness
pub mod Samples
mod Tests
use text2image.Base.{
  ℕ, ℤ, Bool, true, false, List, [], ◌∷◌, Text, Result, ok, err, Action, if◌then◌else◌, ◌>>=◌, ◌>>◌,
  pure, fail, when,
}
use text2image.Models.TaskStatus.{TaskStatus}
use text2image.Models.ImageGeneration.{ImageGeneration}
use text2image.Errors.Repo.{RepoError}
use text2image.Database.Session.{Database}
use text2image.Services.Effects.{Exception, std_error, other_error}
use text2image.Services.CacheKeys.{meta_key, list_version_namespace, decimal}
use text2image.Services.Generation.{ModelPorts, rescue}
use text2image.Services.Redis.{Commands, RedisConnection, is_available}
use text2image.Services.Redis.Queue.{enqueue_task}
use text2image.Services.Redis.Lease.{release_lease}

pub record TaskEngineConfig : Type 0 where
  pub workers : ℤ
  pub poll_interval_ms : ℤ
  pub lease_seconds : ℤ
  pub max_retries : ℤ
  pub worker_prefix : Text

-- `threads` are the workers that were started, by their ids; `started` is the flag of `call_once`.
pub record Engine (S W : Type 0) : Type 0 where
  pub database : Database
  pub redis : RedisConnection S
  pub rest : W
  pub started : Bool
  pub threads : List Text

-- The cache, the metrics, the event hub, the condition variable, and what the generation client calls.
pub record EnginePorts (W : Type 0) : Type 0 where
  pub cache_del : Text → Action W Exception (Unit {0})
  pub bump_version : Text → Text → Action W Exception (Unit {0})
  pub record_task_status : TaskStatus → Action W Exception (Unit {0})
  pub increment_worker_queue_depth : Action W Exception (Unit {0})
  pub decrement_worker_queue_depth : Action W Exception (Unit {0})
  pub set_worker_queue_depth : ℕ → Action W Exception (Unit {0})
  pub publish_task_updated : ImageGeneration → Action W Exception (Unit {0})
  pub notify_workers : Action W Exception (Unit {0})
  pub wait_for : ℕ → Action W Exception (Unit {0})
  pub model : ModelPorts W

module _ {S W : Type 0} where
  -- A method of the repository: its error is a value.
  unfoldable pub on_repo :
      {A : Type 0}
      → Action Database RepoError A
      → Action (Engine S W) Exception (Result RepoError A)
  on_repo m e = let outcome = m e.database in (ok outcome.0, record e { database = outcome.1 })

  unfoldable pub on_redis :
      {A : Type 0} → Action (RedisConnection S) Exception A → Action (Engine S W) Exception A
  on_redis m e = let outcome = m e.redis in (outcome.0, record e { redis = outcome.1 })

  unfoldable pub on_rest : {A : Type 0} → Action W Exception A → Action (Engine S W) Exception A
  on_rest m e = let outcome = m e.rest in (outcome.0, record e { rest = outcome.1 })

  -- `try { body } catch (const std::exception&) { handler }`
  abbrev pub handler_of_standard :
      {A : Type 0} → Action (Engine S W) Exception A → Exception → Action (Engine S W) Exception A
  handler_of_standard h (std_error what) = h
  handler_of_standard h other_error = fail other_error

  unfoldable pub rescue_standard :
      {A : Type 0}
      → Action (Engine S W) Exception A
      → Action (Engine S W) Exception A
      → Action (Engine S W) Exception A
  unfolding rescue
  rescue_standard m h = rescue m (handler_of_standard h)

module _ {S W : Type 0} (r : Commands S) (p : EnginePorts W) where
  unfoldable pub invalidate_all_for_task : ℤ → ℤ → Action (Engine S W) Exception (Unit {0})
  unfolding on_rest meta_key decimal
  invalidate_all_for_task user_id id = do
    on_rest (p.cache_del (meta_key user_id id))
    on_rest (p.bump_version list_version_namespace (decimal user_id))

  unfoldable pub release_redis_lease : ℤ → Text → Action (Engine S W) Exception (Unit {0})
  unfolding rescue on_redis release_lease
  release_redis_lease task_id worker_id =
      let body = do
        up ← on_redis is_available
        let released = do gone ← on_redis (release_lease r task_id worker_id); pure tt
        if up then released else pure tt
      in rescue body (λ e. pure tt)

  -- Whether the id was sent to Redis.
  unfoldable pub send_to_redis : ℤ → Action (Engine S W) Exception Bool
  unfolding rescue on_redis on_rest enqueue_task
  send_to_redis task_id =
      let body = do
        up ← on_redis is_available
        let sent = do
          on_redis (enqueue_task r task_id)
          on_rest p.increment_worker_queue_depth
          pure true
        if up then sent else pure false
      in rescue body (λ e. pure false)

  unfoldable pub enqueue : ℤ → Action (Engine S W) Exception (Unit {0})
  unfolding send_to_redis on_rest
  enqueue task_id = do
    sent ← send_to_redis task_id
    let wake = do on_rest p.increment_worker_queue_depth; on_rest p.notify_workers
    if sent then pure tt else wake
