-- ===== src/Services/TaskEngine/Progress.antt =====
-- A waiting task comes to its end: one turn of a worker whose calls do not fail finishes the task
-- at the tail of the queue.
use text2image.Base.{◌≡◌, refl, eqb_ℤ_iff, ◌∙◌, ℤ, Bool, true, false, some, Text, Result, ok, err}
use text2image.Utils.Chrono.{Time}
use text2image.Models.TaskStatus.{TaskStatus, generating}
use text2image.Models.ImageGeneration.{ImageGeneration}
use text2image.Errors.Repo.{RepoError}
use text2image.Database.Table.{Row, Table, is_waiting, is_finished}
use text2image.Database.Table.Laws.{find_row}
use text2image.Database.Session.{Database}
use text2image.Database.ImageRepo.{row_to_image_generation}
use text2image.Database.ImageRepo.Claims.{finish_claimed_task, finish_row}
use text2image.Database.ImageRepo.Ownership.{idle}
use text2image.Database.ImageRepo.Claiming.{
  find_row-id, claimed_row, claimed_table, finish_claimed_task-found,
}
use text2image.Services.HealthGate.{decide_for_generate, proceed}
use text2image.Services.Yields.{Yields, Any, Never}
use text2image.Services.Redis.{Commands, RedisConnection, is_available}
use text2image.Services.Redis.Lease.{release_lease}
use text2image.Services.Generation.Health.{check_health}
use text2image.Services.Generation.Client.{generate}
use text2image.Services.Generation.Laws.{any_key, Fails, IsResultOf, generate-Yields}
use text2image.Services.TaskEngine.{
  Engine, EnginePorts, TaskEngineConfig, on_repo, on_redis, on_rest, invalidate_all_for_task,
  release_redis_lease,
}
use text2image.Services.TaskEngine.Gate.{apply_model_health_gate}
use text2image.Services.TaskEngine.Worker.{
  keep_lease, after_finish, generate_and_finish, process_claimed_task,
}
use text2image.Services.TaskEngine.Leads.{
  Leads, bind-Leads, pure-Leads, bind_value-Leads, rescued-Leads, if-Leads, At, rest-Leads,
  calm-Leads, Kept, keep_redis-Leads, keep_rest-Leads,
}

-- The calls of a turn do not fail, and the model service can take the task.
pub record IsFair {W : Type 0} (p : EnginePorts W) : Type 0 where
  pub cache_calm : (key : Text) → Yields (p.cache_del key) Any Never
  pub version_calm : (ns identifier : Text) → Yields (p.bump_version ns identifier) Any Never
  pub depth_calm : Yields p.decrement_worker_queue_depth Any Never
  pub status_calm : (s : TaskStatus) → Yields (p.record_task_status s) Any Never
  pub publish_calm : (g : ImageGeneration) → Yields (p.publish_task_updated g) Any Never
  pub model_calm : Fails p.model any_key Never
  pub model_ready :
      (retries : ℤ)
      → Yields (check_health p.model) (λ h. (decide_for_generate h retries).action ≡ proceed) Never

-- The row of this id is there and finished.
abbrev pub IsDone : ℤ → Database → Type 0
IsDone id db = (s : Row) × (find_row id db.table.rows ≡ some s) × (is_finished s.status ≡ true)

module _ {S W : Type 0} (r : Commands S) (p : EnginePorts W) (config : TaskEngineConfig)
    (id : ℤ) where
  abbrev pub Done : Engine S W → Type 0
  Done = Kept (IsDone id)

  release-Done :
      (task_id : ℤ) (worker : Text)
      → Leads Done Done (release_redis_lease r p task_id worker) (λ u. Done)
  unfolding release_redis_lease
  release-Done task_id worker = rescued-Leads Done Done _ tt (
      bind-Leads Done Done (λ x. Done) _ (on_redis is_available) _ (keep_redis-Leads (IsDone id) _)
        λ up.
          if-Leads Done Done (λ x. Done) up _ _
            (bind-Leads Done Done (λ x. Done) _ (on_redis (release_lease r task_id worker)) _
              (keep_redis-Leads (IsDone id) _) λ gone. pure-Leads Done Done tt)
            (pure-Leads Done Done tt))

  after_finish-Done :
      (task result : ImageGeneration) (o : Result RepoError Bool)
      → Leads Done Done (after_finish r p config task result o) (λ u. Done)
  unfolding after_finish invalidate_all_for_task
  after_finish-Done task result (ok true) =
      bind-Leads Done Done (λ x. Done) _ (on_rest (p.record_task_status result.status)) _
        (keep_rest-Leads (IsDone id) _)
        λ u.
          bind-Leads Done Done (λ x. Done) _ (invalidate_all_for_task r p task.user_id task.id) _
            (bind-Leads Done Done (λ x. Done) _ (on_rest (p.cache_del _)) _
              (keep_rest-Leads (IsDone id) _) λ v. keep_rest-Leads (IsDone id) _)
            λ v. keep_rest-Leads (IsDone id) _
  after_finish-Done task result (ok false) = keep_rest-Leads (IsDone id) _
  after_finish-Done task result (err x) = keep_rest-Leads (IsDone id) _

  module _ (fair : IsFair p) (t : Table) (now : Time) (worker : Text) (row : Row)
      (found : find_row id t.rows ≡ some row) (waits : is_waiting row.status ≡ true) where
    abbrev pub claimed : Database
    claimed = idle (claimed_table t now id worker config.lease_seconds row found waits) now

    abbrev pub task : ImageGeneration
    task =
        row_to_image_generation now
          (claimed_row t now id worker config.lease_seconds row found waits)

    abbrev IsClaimed : RedisConnection S → Engine S W → Type 0
    IsClaimed = At Done claimed

    row_id : row.id ≡ id
    row_id = (eqb_ℤ_iff row.id id).0 (find_row-id id t.rows row found)

    -- The result of the model finishes the row.
    finish-Leads :
        (c : RedisConnection S) (g : ImageGeneration)
        → IsResultOf any_key task g
        → Leads Done (IsClaimed c) (on_repo (finish_claimed_task g)) (λ o. Done)
    unfolding on_repo row_to_image_generation
    finish-Leads c g result = record {
      leads = λ e at. rw (at.0) (
        finish_row g (claimed_row t now id worker config.lease_seconds row found waits),
        finish_claimed_task-found t now id worker config.lease_seconds row found waits g
            (result.same_task.0 ∙ row_id) result.same_task.1 result.same_task.2,
        result.finished,
      );
    }

    -- No renewal comes due before the model answers.
    generate-Leads :
        (c : RedisConnection S)
        → Leads Done (IsClaimed c) (generate_and_finish r p config 0 task worker) (λ u. Done)
    unfolding generate_and_finish keep_lease
    generate-Leads c =
        bind-Leads Done (IsClaimed c) (λ u. IsClaimed c) (λ u. Done)
          (keep_lease r p config 0 task worker) _ (pure-Leads Done (IsClaimed c) tt)
          λ u.
            bind-Leads Done (IsClaimed c) (λ g e. IsResultOf any_key task g × IsClaimed c e)
              (λ u. Done) (on_rest (generate p.model task)) _
              (rest-Leads Done (IsResultOf any_key task) claimed c (generate p.model task)
                (generate-Yields p.model any_key Never fair.model_calm task))
              λ g.
                bind-Leads Done (λ e. IsResultOf any_key task g × IsClaimed c e) (λ o. Done)
                  (λ u. Done) (on_repo (finish_claimed_task g)) _
                  (record { leads = λ e q. (finish-Leads c g q.0).leads e q.1 })
                  λ o.
                    bind-Leads Done Done (λ u. Done) (λ u. Done)
                      (release_redis_lease r p task.id worker) _ (release-Done task.id worker)
                      λ v. after_finish-Done task g o

    gate-Leads :
        (c : RedisConnection S)
        → Leads Done
            (IsClaimed c)
            (apply_model_health_gate r p task worker)
            (λ b e. (b ≡ true) × IsClaimed c e)
    unfolding apply_model_health_gate
    gate-Leads c =
        bind-Leads Done (IsClaimed c)
          (λ h e. ((decide_for_generate h task.retry_count).action ≡ proceed) × IsClaimed c e) _
          (on_rest (check_health p.model)) _
          (rest-Leads Done _ claimed c (check_health p.model) (fair.model_ready task.retry_count))
          λ h. record { leads = λ e q. rw (q.0) (refl, q.1) }

    pub process-Leads :
        (c : RedisConnection S)
        → Leads Done (IsClaimed c) (process_claimed_task r p config 0 task worker) (λ u. Done)
    unfolding process_claimed_task invalidate_all_for_task
    process-Leads c =
        bind-Leads Done (IsClaimed c) (λ u. IsClaimed c) (λ u. Done)
          (invalidate_all_for_task r p task.user_id task.id) _
          (bind-Leads Done (IsClaimed c) (λ u. IsClaimed c) (λ u. IsClaimed c)
            (on_rest (p.cache_del _)) _ (calm-Leads Done claimed c _ (fair.cache_calm _))
            λ u. calm-Leads Done claimed c _ (fair.version_calm _ _))
          λ u.
            bind-Leads Done (IsClaimed c) (λ u. IsClaimed c) (λ u. Done)
              (on_rest p.decrement_worker_queue_depth) _
              (calm-Leads Done claimed c _ fair.depth_calm)
              λ u.
                bind-Leads Done (IsClaimed c) (λ u. IsClaimed c) (λ u. Done)
                  (on_rest (p.record_task_status generating)) _
                  (calm-Leads Done claimed c _ (fair.status_calm generating))
                  λ u.
                    bind-Leads Done (IsClaimed c) (λ u. IsClaimed c) (λ u. Done)
                      (on_rest (p.publish_task_updated task)) _
                      (calm-Leads Done claimed c _ (fair.publish_calm task))
                      λ u.
                        bind_value-Leads Done (IsClaimed c) (IsClaimed c) (λ u. Done) true
                          (apply_model_health_gate r p task worker) _ (gate-Leads c)
                          (generate-Leads c)
