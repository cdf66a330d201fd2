-- ===== src/Database/ImageRepo/Calls.antt =====
-- The methods of Backend/src/database/ImageRepo.cpp as one type of calls.
use text2image.Base.{ℤ, Text}
use text2image.Models.TaskStatus.{TaskStatus}
use text2image.Models.ImageGeneration.{ImageGeneration}
use text2image.Database.Session.{Database}
use text2image.Database.ImageRepo.{
  find_by_user_id, find_by_user_id_and_status, find_by_id_and_user_id,
  find_by_request_id_and_user_id, count_active_tasks_by_user_id, find_queued_task_ids,
}
use text2image.Database.ImageRepo.Claims.{
  claim_next_task, claim_task_by_id, renew_lease, finish_claimed_task,
  defer_claimed_task_for_model_health,
}
use text2image.Database.ImageRepo.Leases.{expire_leases_returning_expired, expire_leases}
use text2image.Database.ImageRepo.Owner.{
  insert, cancel_by_id_and_user_id, retry_by_id_and_user_id, delete_by_id_and_user_id,
  update_status_and_error,
}

-- A call of a method, with its arguments.
pub data RepoCall : Type 0 where
  insert_call : ImageGeneration → RepoCall
  find_user_call : ℤ → ℤ → ℤ → RepoCall
  find_user_status_call : ℤ → TaskStatus → ℤ → ℤ → RepoCall
  find_id_call : ℤ → ℤ → RepoCall
  find_request_call : Text → ℤ → RepoCall
  count_active_call : ℤ → RepoCall
  delete_call : ℤ → ℤ → RepoCall
  claim_next_call : Text → ℤ → RepoCall
  claim_id_call : ℤ → Text → ℤ → RepoCall
  queued_ids_call : RepoCall
  expire_returning_call : RepoCall
  renew_call : ℤ → ℤ → Text → ℤ → RepoCall
  finish_call : ImageGeneration → RepoCall
  defer_call : ℤ → ℤ → Text → Text → Text → RepoCall
  cancel_call : ℤ → ℤ → RepoCall
  retry_call : ℤ → ℤ → RepoCall
  expire_call : RepoCall
  update_status_call : ℤ → ℤ → TaskStatus → Text → RepoCall

-- The database after a call. `vanished` formats the message of a row that vanished.
unfoldable pub run_call : (ℤ → ℤ → Text) → RepoCall → Database → Database
run_call vanished (insert_call g) db = (insert g db).1
run_call vanished (find_user_call user page size) db = (find_by_user_id user page size db).1
run_call vanished (find_user_status_call user status page size) db =
    (find_by_user_id_and_status user status page size db).1
run_call vanished (find_id_call id user) db = (find_by_id_and_user_id id user db).1
run_call vanished (find_request_call request user) db =
    (find_by_request_id_and_user_id request user db).1
run_call vanished (count_active_call user) db = (count_active_tasks_by_user_id user db).1
run_call vanished (delete_call id user) db = (delete_by_id_and_user_id id user db).1
run_call vanished (claim_next_call worker lease) db = (claim_next_task worker lease db).1
run_call vanished (claim_id_call id worker lease) db = (claim_task_by_id id worker lease db).1
run_call vanished queued_ids_call db = (find_queued_task_ids db).1
run_call vanished expire_returning_call db = (expire_leases_returning_expired db).1
run_call vanished (renew_call id user worker lease) db = (renew_lease id user worker lease db).1
run_call vanished (finish_call g) db = (finish_claimed_task g db).1
run_call vanished (defer_call id user worker code message) db =
    (defer_claimed_task_for_model_health id user worker code message db).1
run_call vanished (cancel_call id user) db = (cancel_by_id_and_user_id vanished id user db).1
run_call vanished (retry_call id user) db = (retry_by_id_and_user_id vanished id user db).1
run_call vanished expire_call db = (expire_leases db).1
run_call vanished (update_status_call id user status message) db =
    (update_status_and_error id user status message db).1
