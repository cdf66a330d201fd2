-- ===== src/Database/ImageRepo/Lifecycle.antt =====
-- The life of a task as the methods of Backend/src/database/ImageRepo.cpp are meant to lead it: an
-- abstract specification of what one call may do to the row of each id (`Lives`, in `Rows`), and the
-- methods against it.
pub mod Rows
mod Oldest
mod Setters
mod Triples
mod Methods
use text2image.Base.{ℤ, ◌≡◌, Bool, true, Text}
use text2image.Models.TaskStatus.{queued}
use text2image.Database.Table.{is_finished, owned}
use text2image.Database.Session.{Database}
use text2image.Database.Session.Quiet.{Undisturbed}
use text2image.Database.Invariant.{IsValid}
use text2image.Database.ImageRepo.{
  find_by_user_id, find_by_user_id_and_status, find_by_id_and_user_id,
  find_by_request_id_and_user_id, count_active_tasks_by_user_id, find_queued_task_ids,
}
use text2image.Database.ImageRepo.Calls.{
  RepoCall, run_call, insert_call, find_user_call, find_user_status_call, find_id_call,
  find_request_call, count_active_call, delete_call, claim_next_call, claim_id_call,
  queued_ids_call, expire_returning_call, renew_call, finish_call, defer_call, cancel_call,
  retry_call, expire_call, update_status_call,
}
use Rows.{Lives}
use Methods.{
  claim_id-Lives, claim_next-Lives, renew-Lives, finish-Lives, defer-Lives, expire-Lives,
  expire_returning-Lives, insert-Lives, cancel-Lives, retry-Lives, delete-Lives, page-Lives,
  fetch-Lives, query-Lives, count-Lives,
}

-- The calls that the services and the workers make: a new task is queued, a claimed task is given
-- back finished, and no task is set to a status by hand.
abbrev pub IsLifecycleCall : RepoCall → Type 0
IsLifecycleCall (insert_call g) = g.status ≡ queued
IsLifecycleCall (finish_call g) = is_finished g.status ≡ true
IsLifecycleCall (update_status_call id user status message) = ⊥
IsLifecycleCall _ = Unit {0}

-- In a session that no other session disturbs, from a valid table, and whatever statements fail, one
-- call leads the row of each id along an edge of the life cycle: the status follows `allowed`, a task
-- that goes back to the queue has used one more attempt and no other has, identity and request stay
-- the same, and only a finished row is deleted. The call is any but updateStatusAndError, an insertion
-- is of a queued task and a result that is given back is final.
pub run_call-Lives :
    (vanished : ℤ → ℤ → Text) (c : RepoCall) (db : Database)
    → IsLifecycleCall c
    → IsValid db.table
    → Undisturbed db
    → Lives db.table (run_call vanished c db).table
unfolding run_call
run_call-Lives v (insert_call g) db q i u = insert-Lives db u g q
run_call-Lives v (find_user_call user page size) db q i u =
    unfold find_by_user_id in page-Lives db u _ page size
run_call-Lives v (find_user_status_call user status page size) db q i u =
    unfold find_by_user_id_and_status in page-Lives db u _ page size
run_call-Lives v (find_id_call id user) db q i u =
    unfold find_by_id_and_user_id in fetch-Lives db u _
run_call-Lives v (find_request_call request user) db q i u =
    unfold find_by_request_id_and_user_id in fetch-Lives db u _
run_call-Lives v (count_active_call user) db q i u =
    unfold count_active_tasks_by_user_id in count-Lives db u _
run_call-Lives v (delete_call id user) db q i u = delete-Lives db u id user i.distinct
run_call-Lives v (claim_next_call worker lease) db q i u =
    claim_next-Lives db u worker lease i.distinct
run_call-Lives v (claim_id_call id worker lease) db q i u = claim_id-Lives db u id worker lease
run_call-Lives v queued_ids_call db q i u = unfold find_queued_task_ids in query-Lives db u _ _
run_call-Lives v expire_returning_call db q i u = expire_returning-Lives db u
run_call-Lives v (renew_call id user worker lease) db q i u = renew-Lives db u id user worker lease
run_call-Lives v (finish_call g) db q i u = finish-Lives db u g q
run_call-Lives v (defer_call id user worker code message) db q i u =
    defer-Lives db u id user worker code message
run_call-Lives v (cancel_call id user) db q i u = cancel-Lives db u v id user
run_call-Lives v (retry_call id user) db q i u = retry-Lives db u v id user
run_call-Lives v expire_call db q i u = expire-Lives db u
run_call-Lives v (update_status_call id user status message) db q i u = absurd q
