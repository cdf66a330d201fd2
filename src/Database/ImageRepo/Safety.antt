-- ===== src/Database/ImageRepo/Safety.antt =====
-- Every method of Backend/src/database/ImageRepo.cpp against the table's invariant, whatever fails
-- and whatever other sessions write meanwhile.
mod Methods
use text2image.Base.{ℤ, ◌≡◌, Bool, false, Text}
use text2image.Database.Table.{is_generating}
use text2image.Database.Session.{Database}
use text2image.Database.Session.Keeps.{IsGood, Keeps}
use text2image.Database.Invariant.{IsValid}
use text2image.Database.ImageRepo.{find_by_user_id, find_by_user_id_and_status}
use text2image.Database.ImageRepo.Calls.{
  RepoCall, run_call, insert_call, find_user_call, find_user_status_call, find_id_call,
  find_request_call, count_active_call, delete_call, claim_next_call, claim_id_call,
  queued_ids_call, expire_returning_call, renew_call, finish_call, defer_call, cancel_call,
  retry_call, expire_call, update_status_call,
}
use Methods.{
  claim_task_by_id-Keeps, claim_next_task-Keeps, renew_lease-Keeps, finish_claimed_task-Keeps,
  defer-Keeps, expire_returning-Keeps, expire_leases-Keeps, insert-Keeps, cancel-Keeps, retry-Keeps,
  delete-Keeps, update_status-Keeps, find_page-Keeps, find_id-Keeps, find_request-Keeps,
  count_active-Keeps, queued_ids-Keeps,
}

-- Only a claim makes a task `generating`: the status that a caller hands over is another.
abbrev pub IsProper : RepoCall → Type 0
IsProper (insert_call g) = is_generating g.status ≡ false
IsProper (finish_call g) = is_generating g.status ≡ false
IsProper (update_status_call id user status message) = is_generating status ≡ false
IsProper _ = Unit {0}

-- Whatever statements fail and whatever valid changes other sessions commit in between, a call of
-- any method of the repository leaves the table valid: every generating task has a worker and a
-- lease, ids are distinct and below the counter. A status handed to insert, finish or
-- updateStatusAndError must not be `generating`.
pub run_call-IsValid :
    (vanished : ℤ → ℤ → Text) (c : RepoCall) (db : Database)
    → IsProper c
    → IsGood IsValid db
    → IsGood IsValid (run_call vanished c db)
unfolding run_call
run_call-IsValid v (insert_call g) db s h = (insert-Keeps g s).keeps db h
run_call-IsValid v (find_user_call user page size) db s h =
    unfold find_by_user_id in (find_page-Keeps _ page size).keeps db h
run_call-IsValid v (find_user_status_call user status page size) db s h =
    unfold find_by_user_id_and_status in (find_page-Keeps _ page size).keeps db h
run_call-IsValid v (find_id_call id user) db s h = (find_id-Keeps id user).keeps db h
run_call-IsValid v (find_request_call request user) db s h =
    (find_request-Keeps request user).keeps db h
run_call-IsValid v (count_active_call user) db s h = (count_active-Keeps user).keeps db h
run_call-IsValid v (delete_call id user) db s h = (delete-Keeps id user).keeps db h
run_call-IsValid v (claim_next_call worker lease) db s h =
    (claim_next_task-Keeps worker lease).keeps db h
run_call-IsValid v (claim_id_call id worker lease) db s h =
    (claim_task_by_id-Keeps id worker lease).keeps db h
run_call-IsValid v queued_ids_call db s h = queued_ids-Keeps.keeps db h
run_call-IsValid v expire_returning_call db s h = expire_returning-Keeps.keeps db h
run_call-IsValid v (renew_call id user worker lease) db s h =
    (renew_lease-Keeps id user worker lease).keeps db h
run_call-IsValid v (finish_call g) db s h = (finish_claimed_task-Keeps g s).keeps db h
run_call-IsValid v (defer_call id user worker code message) db s h =
    (defer-Keeps id user worker code message).keeps db h
run_call-IsValid v (cancel_call id user) db s h = (cancel-Keeps v id user).keeps db h
run_call-IsValid v (retry_call id user) db s h = (retry-Keeps v id user).keeps db h
run_call-IsValid v expire_call db s h = expire_leases-Keeps.keeps db h
run_call-IsValid v (update_status_call id user status message) db s h =
    (update_status-Keeps id user status message s).keeps db h
