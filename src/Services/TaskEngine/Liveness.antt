-- ===== src/Services/TaskEngine/Liveness.antt =====
-- One turn of a worker of Backend/src/services/task_engine.cpp brings the next task to its end.
use text2image.Base.{◌≡◌, refl, ℤ, true, none, some, List, [], ◌∷◌, ◌++◌, Text, ok, if◌then◌else◌}
use text2image.Utils.Chrono.{Time}
use text2image.Database.Table.{Row, Table, is_waiting}
use text2image.Database.Table.Laws.{find_row}
use text2image.Database.ImageRepo.Claims.{claim_task_by_id}
use text2image.Database.ImageRepo.Ownership.{idle}
use text2image.Database.ImageRepo.Claiming.{claim_task_by_id-found}
use text2image.Services.CacheKeys.{decimal}
use text2image.Services.Redis.{Commands, RedisConfig, RedisConnection, is_available, run_command}
use text2image.Services.Redis.Numbers.{IsInt64}
use text2image.Services.Redis.Queue.{dequeue_task}
use text2image.Services.Redis.Lease.{acquire_lease, lease_key}
use text2image.Services.Redis.Laws.{IsServer, connected, dequeue_task-some}
use text2image.Services.TaskEngine.{Engine, EnginePorts, TaskEngineConfig, on_redis, on_repo}
use text2image.Services.TaskEngine.Worker.{
  after_claim, work_on, work_if_dequeued, work_from_redis, work_from_database, worker_turn,
}
use text2image.Services.TaskEngine.Leads.{
  Leads, bind_value-Leads, rescue-Leads, At, redis-Leads, repo-Leads,
}
use text2image.Services.TaskEngine.Progress.{IsFair, IsDone, Done, claimed, task, process-Leads}

module _ {S W : Type 0} (r : Commands S) (server : IsServer r) (p : EnginePorts W)
    (config : TaskEngineConfig) (fair : IsFair p) (t : Table) (now : Time) (worker : Text) (id : ℤ)
    (row : Row) (found : find_row id t.rows ≡ some row) (waits : is_waiting row.status ≡ true)
    (redis_config : RedisConfig) where
  granted_lease :
      (s : S)
      → r.get_value (lease_key redis_config id) s ≡ none
      → acquire_lease r id worker config.lease_seconds (connected redis_config s) ≡ (
        ok true,
        connected redis_config
            (r.set_nx_ex (lease_key redis_config id) worker config.lease_seconds s).1,
      )
  unfolding acquire_lease run_command
  granted_lease s free =
      rw ((server.set_nx_free (lease_key redis_config id) worker config.lease_seconds s free).0)
        refl

  work_on-Leads :
      (s : S)
      → r.get_value (lease_key redis_config id) s ≡ none
      → Leads
          (Done r p config id)
          (At (Done r p config id) (idle t now) (connected redis_config s))
          (work_on r p config 0 id worker)
          (λ u. Done r p config id)
  unfolding work_on after_claim
  work_on-Leads s free =
      let D = Done r p config id in
      let s' = (r.set_nx_ex (lease_key redis_config id) worker config.lease_seconds s).1 in
      let after : RedisConnection S = connected redis_config s' in
      bind_value-Leads D _ (At D (idle t now) after) _ true
        (on_redis (acquire_lease r id worker config.lease_seconds)) _
        (redis-Leads D (idle t now) _ after true _ (granted_lease s free))
        (bind_value-Leads D _ (At D (claimed r p config id fair t now worker row found waits) after)
          _ (ok (some (task r p config id fair t now worker row found waits)))
          (on_repo (claim_task_by_id id worker config.lease_seconds))
          (after_claim r p config 0 id worker)
          (repo-Leads D (idle t now) _ after _ _
            (claim_task_by_id-found t now id worker config.lease_seconds row found waits))
          (process-Leads r p config id fair t now worker row found waits after))

  -- The task at the tail of the queue is finished by one turn of a worker: its row is there and its
  -- status is one of the four final ones. The task waits in the table and nobody holds its lease in
  -- Redis, Redis and the database are undisturbed and do not fail, the ports do not fail, the model
  -- service can take the task, and no renewal of the lease comes due before it answers, with
  -- whatever answer.
  pub worker_turn-IsDone :
      (s : S) (others : List Text) (e : Engine S W)
      → IsInt64 id
      → server.list_at redis_config.task_queue_key s ≡ others ++ decimal id ∷ []
      → r.get_value (lease_key redis_config id) (r.brpop redis_config.task_queue_key s).1 ≡ none
      → e.database ≡ idle t now
      → e.redis ≡ connected redis_config s
      → IsDone id (worker_turn r p config 0 worker e).1.database
  unfolding worker_turn work_from_redis
  worker_turn-IsDone s others e bound queued free at_database at_redis =
      let D = Done r p config id in
      let c : RedisConnection S = connected redis_config s in
      let c' : RedisConnection S =
        connected redis_config (r.brpop redis_config.task_queue_key s).1 in
      rescue-Leads D (At D (idle t now) c) _ tt
        (bind_value-Leads D _ (At D (idle t now) c) _ true (on_redis is_available)
          (λ up.
            if up
            then work_from_redis r p config 0 worker
            else work_from_database r p config 0 worker)
          (redis-Leads D (idle t now) c c true _ refl)
          (bind_value-Leads D _ (At D (idle t now) c') _ (some id) (on_redis (dequeue_task r))
            (work_if_dequeued r p config 0 worker)
            (redis-Leads D (idle t now) c c' (some id) _
              (dequeue_task-some r server redis_config id others s bound queued).0)
            (work_on-Leads (r.brpop redis_config.task_queue_key s).1 free)))
        e (at_database, at_redis)
