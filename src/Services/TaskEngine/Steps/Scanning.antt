-- ===== src/Services/TaskEngine/Steps/Scanning.antt =====
-- The scanner and the start of the engine act on the database by calls of the life cycle.
use text2image.Base.{
  refl, ℤ, true, false, List, [], ◌∷◌, Text, Result, ok, err, pos, pos_part, leb_ℤ, length, ◌>>=◌,
  pure, if◌then◌else◌,
}
use text2image.Errors.Repo.{RepoError}
use text2image.Database.ImageRepo.{find_queued_task_ids}
use text2image.Database.ImageRepo.Calls.{run_call, queued_ids_call, expire_returning_call}
use text2image.Database.ImageRepo.Leases.{ExpiredLease, expire_leases_returning_expired}
use text2image.Services.Redis.{Commands, is_available}
use text2image.Services.Redis.Queue.{rebuild_task_queue}
use text2image.Services.TaskEngine.{
  EnginePorts, TaskEngineConfig, rescue_standard, on_repo, invalidate_all_for_task, enqueue,
}
use text2image.Services.TaskEngine.Runs.{
  no_call, then-Traced, if-Traced, rescue_standard-Traced, repo-Traced,
}
use text2image.Services.TaskEngine.Scanner.{
  rebuild_from, recover_orphaned_tasks, requeue_expired, scan_leases, scanner_turn, bootstrap,
  enqueue_and_start, start_threads, mark_started, is_started, worker_ids,
}
use text2image.Services.TaskEngine.Steps.{
  IsTraced, nothing-Traced, port-Traced, redis_then, invalidate-Traced, enqueue-Traced,
}

module _ (vanished : ℤ → ℤ → Text) {S W : Type 0} (r : Commands S) (p : EnginePorts W) where
  rebuild-Traced : (o : Result RepoError (List ℤ)) → IsTraced vanished r p (rebuild_from r p o)
  unfolding rebuild_from
  rebuild-Traced (err x) = nothing-Traced vanished r p tt
  rebuild-Traced (ok ids) =
      redis_then vanished r p (rebuild_task_queue r ids) _
        λ u. port-Traced vanished r p (p.set_worker_queue_depth (length ids))

  recover-Traced : IsTraced vanished r p (recover_orphaned_tasks r p)
  unfolding recover_orphaned_tasks
  recover-Traced =
      rescue_standard-Traced vanished _ _
        (redis_then vanished r p is_available _ λ up.
          if-Traced vanished up _ _
            (then-Traced vanished (on_repo find_queued_task_ids) _
              (repo-Traced vanished _ queued_ids_call tt λ db. unfold run_call in refl)
              rebuild-Traced)
            (nothing-Traced vanished r p tt))
        (nothing-Traced vanished r p tt)

  requeue-Traced : (ts : List ExpiredLease) → IsTraced vanished r p (requeue_expired r p ts)
  unfolding requeue_expired
  requeue-Traced [] = nothing-Traced vanished r p tt
  requeue-Traced (t ∷ ts) =
      then-Traced vanished (invalidate_all_for_task r p t.user_id t.id) _
        (invalidate-Traced vanished r p t.user_id t.id)
        λ u.
          then-Traced vanished (if t.requeue then enqueue r p t.id else pure tt) _
            (if-Traced vanished t.requeue _ _ (enqueue-Traced vanished r p t.id)
              (nothing-Traced vanished r p tt))
            λ v. requeue-Traced ts

  scan-Traced :
      (o : Result RepoError (List ExpiredLease)) → IsTraced vanished r p (scan_leases r p o)
  unfolding scan_leases
  scan-Traced (err x) =
      then-Traced vanished (recover_orphaned_tasks r p) _ recover-Traced
        λ u. nothing-Traced vanished r p true
  scan-Traced (ok expired) =
      then-Traced vanished (requeue_expired r p expired) _ (requeue-Traced expired)
        λ u. nothing-Traced vanished r p false

  pub scanner_turn-Traced : IsTraced vanished r p (scanner_turn r p)
  unfolding scanner_turn
  scanner_turn-Traced =
      then-Traced vanished
        (rescue_standard (on_repo expire_leases_returning_expired >>= scan_leases r p) (pure false))
        _
        (rescue_standard-Traced vanished _ _
          (then-Traced vanished (on_repo expire_leases_returning_expired) _
            (repo-Traced vanished _ expire_returning_call tt λ db. unfold run_call in refl)
            scan-Traced)
          (nothing-Traced vanished r p false))
        λ recovered.
          if-Traced vanished recovered _ _ (nothing-Traced vanished r p tt) recover-Traced

  marked-Traced : IsTraced vanished r p (mark_started r p)
  marked-Traced = record { traced = λ e. (no_call e.database, tt) }

  flag-Traced : IsTraced vanished r p (is_started r p)
  flag-Traced = record { traced = λ e. (no_call e.database, tt) }

  threads-Traced : (ids : List Text) → IsTraced vanished r p (start_threads r p ids)
  threads-Traced ids = record { traced = λ e. (no_call e.database, tt) }

  pub bootstrap-Traced : (config : TaskEngineConfig) → IsTraced vanished r p (bootstrap r p config)
  unfolding bootstrap
  bootstrap-Traced config = then-Traced vanished (is_started r p) _ flag-Traced λ already.
      if-Traced vanished already _ _ (nothing-Traced vanished r p tt) (
        if-Traced vanished (leb_ℤ config.workers (pos 0)) _ _ marked-Traced (
          then-Traced vanished (recover_orphaned_tasks r p) _ recover-Traced λ u.
            then-Traced vanished
              (start_threads r p (worker_ids r p config.worker_prefix 0 (pos_part config.workers)))
              _ (threads-Traced _) λ v. marked-Traced))

  pub enqueue_and_start-Traced :
      (config : TaskEngineConfig) (id : ℤ) → IsTraced vanished r p (enqueue_and_start r p config id)
  unfolding enqueue_and_start
  enqueue_and_start-Traced config id =
      then-Traced vanished (bootstrap r p config) _ (bootstrap-Traced config)
        λ u. enqueue-Traced vanished r p id
