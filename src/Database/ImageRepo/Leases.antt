-- ===== src/Database/ImageRepo/Leases.antt =====
-- The lease scanner's methods of Backend/src/database/ImageRepo.cpp.

use text2image.Base.{
  ℕ, ◌+◌, ℤ, suc_ℤ, Bool, true, false, none, some, List, ◌++◌, map, bytes, Action, ◌>>=◌, ◌>>◌,
  pure,
}
use text2image.Utils.Chrono.{floor_seconds}
use text2image.Models.TaskStatus.{queued, timeout}
use text2image.Models.FailureCode.{lease_expired, lease_expired_max_retries}
use text2image.Errors.Repo.{RepoError, repo_invoke}
use text2image.Database.Table.{Row, expired_for_requeue, expired_for_timeout, select_where}
use text2image.Database.Session.{Database, Sql, execute, current_time, update_statement, query}
use text2image.Database.ImageRepo.{ensure_table}

-- The SET clause of the first UPDATE of `expireLeasesUnsafe`.
abbrev pub requeue_row : Row → Row
requeue_row r = record r {
  status = queued;
  worker_id = none;
  lease_expires_at = none;
  retry_count = suc_ℤ r.retry_count;
  failure_code = some lease_expired;
  error_message = some (bytes "worker lease expired, re-queued for retry");
}

-- The SET clause of the second.
abbrev pub timeout_row : ℕ → Row → Row
timeout_row now r = record r {
  status = timeout;
  worker_id = none;
  lease_expires_at = none;
  completed_at = some now;
  failure_code = some lease_expired_max_retries;
  error_message = some (bytes "worker lease expired and max retries reached");
}

abbrev pub requeue_statement : ℕ → Database → ℕ × Database
requeue_statement now =
    update_statement (expired_for_requeue now) (expired_for_requeue now) requeue_row

abbrev pub timeout_statement : ℕ → Database → ℕ × Database
timeout_statement now =
    update_statement (expired_for_timeout now) (expired_for_timeout now) (timeout_row now)

unfoldable pub expire_leases_unsafe : Sql ℕ
expire_leases_unsafe = do
  now ← current_time
  requeued ← execute (requeue_statement (floor_seconds now))
  timed_out ← execute (timeout_statement (floor_seconds now))
  pure (requeued + timed_out)

pub record ExpiredLease : Type 0 where
  pub id : ℤ
  pub user_id : ℤ
  pub requeue : Bool

abbrev pub expired_lease : Bool → Row → ExpiredLease
expired_lease requeue r = record { id = r.id; user_id = r.user_id; requeue = requeue }

unfoldable pub expire_leases_returning_expired : Action Database RepoError (List ExpiredLease)
unfolding repo_invoke ensure_table expire_leases_unsafe
expire_leases_returning_expired = repo_invoke (do
  ensure_table
  now ← current_time
  to_requeue ← execute (query (select_where (expired_for_requeue (floor_seconds now))))
  to_time_out ← execute (query (select_where (expired_for_timeout (floor_seconds now))))
  affected ← expire_leases_unsafe
  pure (map (expired_lease true) to_requeue ++ map (expired_lease false) to_time_out))

unfoldable pub expire_leases : Action Database RepoError ℕ
unfolding repo_invoke ensure_table expire_leases_unsafe
expire_leases = repo_invoke (do ensure_table; expire_leases_unsafe)
