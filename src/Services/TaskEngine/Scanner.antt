-- ===== src/Services/TaskEngine/Scanner.antt =====
-- `recoverOrphanedTasks`, `leaseExpiryLoop` and `bootstrap` of Backend/src/services/task_engine.cpp.
use text2image.Base.{
  ℕ, zero, suc, ℤ, pos, pos_part, leb_ℤ, Bool, true, false, List, [], ◌∷◌, ◌++◌, Text, bytes,
  length, Result, ok, err, Action, ◌>>=◌, ◌>>◌, pure, if◌then◌else◌,
}
use text2image.Errors.Repo.{RepoError}
use text2image.Database.ImageRepo.{find_queued_task_ids}
use text2image.Database.ImageRepo.Leases.{ExpiredLease, expire_leases_returning_expired}
use text2image.Services.Effects.{Exception}
use text2image.Services.CacheKeys.{decimal}
use text2image.Services.Redis.{Commands, is_available}
use text2image.Services.Redis.Queue.{rebuild_task_queue}
use text2image.Services.TaskEngine.{
  Engine, EnginePorts, TaskEngineConfig, on_repo, on_redis, on_rest, rescue_standard,
  invalidate_all_for_task, enqueue,
}

module _ {S W : Type 0} (r : Commands S) (p : EnginePorts W) where
  unfoldable pub rebuild_from : Result RepoError (List ℤ) → Action (Engine S W) Exception (Unit {0})
  unfolding on_redis on_rest rebuild_task_queue
  rebuild_from (err e) = pure tt
  rebuild_from (ok ids) = do
    on_redis (rebuild_task_queue r ids)
    on_rest (p.set_worker_queue_depth (length ids))

  unfoldable pub recover_orphaned_tasks : Action (Engine S W) Exception (Unit {0})
  unfolding rescue_standard on_redis on_repo find_queued_task_ids rebuild_from
  recover_orphaned_tasks =
      let body = do
        up ← on_redis is_available
        let recovered = do ids ← on_repo find_queued_task_ids; rebuild_from ids
        if up then recovered else pure tt
      in rescue_standard body (pure tt)

  unfoldable pub requeue_expired : List ExpiredLease → Action (Engine S W) Exception (Unit {0})
  unfolding invalidate_all_for_task enqueue
  requeue_expired [] = pure tt
  requeue_expired (t ∷ ts) =
      let rest = requeue_expired ts in
      do
        invalidate_all_for_task r p t.user_id t.id
        let queued = enqueue r p t.id
        if t.requeue then queued else pure tt
        rest

  -- The body of the try block: whether it has already recovered, since the scan failed.
  unfoldable pub scan_leases :
      Result RepoError (List ExpiredLease) → Action (Engine S W) Exception Bool
  unfolding recover_orphaned_tasks requeue_expired
  scan_leases (err e) = do recover_orphaned_tasks; pure true
  scan_leases (ok expired) = do requeue_expired expired; pure false

  -- One turn of `leaseExpiryLoop`.
  unfoldable pub scanner_turn : Action (Engine S W) Exception (Unit {0})
  unfolding rescue_standard on_repo expire_leases_returning_expired scan_leases
      recover_orphaned_tasks
  scanner_turn =
      let body = do expired ← on_repo expire_leases_returning_expired; scan_leases expired
      in do
        recovered ← rescue_standard body (pure false)
        let recovering = recover_orphaned_tasks
        if recovered then pure tt else recovering

  -- The ids of the workers from `i + 1` on.
  unfoldable pub worker_ids : Text → ℕ → ℕ → List Text
  unfolding decimal
  worker_ids prefix i zero = []
  worker_ids prefix i (suc n) =
      (prefix ++ (bytes "-" ++ decimal (pos (suc i)))) ∷ worker_ids prefix (suc i) n

  abbrev pub start_threads : List Text → Action (Engine S W) Exception (Unit {0})
  start_threads ids e = (ok tt, record e { threads = ids })

  abbrev pub mark_started : Action (Engine S W) Exception (Unit {0})
  mark_started e = (ok tt, record e { started = true })

  abbrev pub is_started : Action (Engine S W) Exception Bool
  is_started e = (ok e.started, e)

  -- The flag of `call_once` is set when its function returns.
  unfoldable pub bootstrap : TaskEngineConfig → Action (Engine S W) Exception (Unit {0})
  unfolding recover_orphaned_tasks worker_ids
  bootstrap config = do
    already ← is_started
    let run = do
      recover_orphaned_tasks
      start_threads (worker_ids config.worker_prefix 0 (pos_part config.workers))
      mark_started
    let first = if leb_ℤ config.workers (pos 0) then mark_started else run
    if already then pure tt else first

  -- `TaskEngine::enqueue`
  unfoldable pub enqueue_and_start : TaskEngineConfig → ℤ → Action (Engine S W) Exception (Unit {0})
  unfolding bootstrap enqueue
  enqueue_and_start config task_id = do bootstrap config; enqueue r p task_id
