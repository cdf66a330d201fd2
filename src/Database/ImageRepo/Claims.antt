-- ===== src/Database/ImageRepo/Claims.antt =====
-- The methods of Backend/src/database/ImageRepo.cpp that a worker calls on a task: to claim it, to
-- renew its lease, and to give it back.

use text2image.Base.{
  ℕ, ◌+◌, ltb, ◌==◌, ℤ, pos, pos_part, leb_ℤ, eqb_ℤ, suc_ℤ, Bool, false, not, ◌&&◌, Option, none,
  some, List, [], Text, if◌then◌else◌, head?, Action, ◌>>=◌, ◌>>◌, pure,
}
use text2image.Utils.Chrono.{Time, seconds, floor_seconds}
use text2image.Models.TaskStatus.{generating, queued}
use text2image.Models.ImageGeneration.{ImageGeneration}
use text2image.Errors.Repo.{RepoError, repo_invoke}
use text2image.Database.Table.{
  Row, held_by, claimable, is_waiting, is_generating, column_is, column_at, if_null, older,
  order_by, select_where,
}
use text2image.Database.Session.{Database, execute, current_time, update_statement}
use text2image.Database.ImageRepo.{ensure_table, fetch_one}

-- `leaseSeconds <= 0 ? 900 : leaseSeconds`
abbrev pub lease_or_default : ℤ → ℕ
lease_or_default lease_seconds = if leb_ℤ lease_seconds (pos 0) then 900 else pos_part lease_seconds

-- `optionalTimeToValue`
abbrev pub optional_time_to_value : Option Time → Option ℕ
optional_time_to_value none = none
optional_time_to_value (some t) = some (floor_seconds t)

-- The SET clause of both claims.
abbrev pub claim_row : Text → ℕ → ℕ → Row → Row
claim_row worker_id now expires_at r = record r {
  status = generating;
  worker_id = some worker_id;
  started_at = if_null r.started_at now;
  lease_expires_at = some expires_at;
  failure_code = some [];
  error_message = some [];
}

-- The row that the inline subquery names: the oldest that may be taken.
abbrev pub is_oldest_claimable : ℕ → List Row → Row → Bool
is_oldest_claimable now rows r = elim (head? (order_by older (select_where (claimable now) rows))) [
  | none ↦ false
  | some oldest ↦ eqb_ℤ r.id oldest.id
]

abbrev pub claim_oldest : Text → ℕ → ℕ → Database → ℕ × Database
claim_oldest worker_id now expires_at db =
    let p = is_oldest_claimable now db.table.rows in
    update_statement p p (claim_row worker_id now expires_at) db

abbrev pub is_claim_of : Text → ℕ → Row → Bool
is_claim_of worker_id expires_at r =
    column_is r.worker_id worker_id
    && is_generating r.status
    && column_at r.lease_expires_at expires_at

unfoldable pub claim_next_task : Text → ℤ → Action Database RepoError (Option ImageGeneration)
unfolding repo_invoke ensure_table fetch_one
claim_next_task worker_id lease_seconds = repo_invoke (do
  ensure_table
  now ← current_time
  let expires_at = floor_seconds (now + seconds (lease_or_default lease_seconds))
  affected ← execute (claim_oldest worker_id (floor_seconds now) expires_at)
  let claimed = fetch_one (is_claim_of worker_id expires_at)
  if affected == 0 then pure none else claimed)

-- `id = ? AND status IN ('queued', 'pending')`
abbrev pub is_waiting_task : ℤ → Row → Bool
is_waiting_task task_id r = eqb_ℤ r.id task_id && is_waiting r.status

abbrev pub is_claimed_by : ℤ → Text → Row → Bool
is_claimed_by task_id worker_id r =
    eqb_ℤ r.id task_id && column_is r.worker_id worker_id && is_generating r.status

unfoldable pub claim_task_by_id : ℤ → Text → ℤ → Action Database RepoError (Option ImageGeneration)
unfolding repo_invoke ensure_table fetch_one
claim_task_by_id task_id worker_id lease_seconds = repo_invoke (do
  ensure_table
  now ← current_time
  let expires_at = floor_seconds (now + seconds (lease_or_default lease_seconds))
  let p = is_waiting_task task_id
  affected ← execute (update_statement p p (claim_row worker_id (floor_seconds now) expires_at))
  let claimed = fetch_one (is_claimed_by task_id worker_id)
  if affected == 0 then pure none else claimed)

abbrev pub renew_row : ℕ → Row → Row
renew_row expires_at r = record r { lease_expires_at = some expires_at }

-- A row counts as affected if the new lease differs from the old.
unfoldable pub renew_lease : ℤ → ℤ → Text → ℤ → Action Database RepoError Bool
unfolding repo_invoke ensure_table
renew_lease id user_id worker_id lease_seconds = repo_invoke (do
  ensure_table
  now ← current_time
  let expires_at = floor_seconds (now + seconds (lease_or_default lease_seconds))
  let p = held_by id user_id worker_id
  let changed = λ (r : Row). p r && not (column_at r.lease_expires_at expires_at)
  affected ← execute (update_statement changed p (renew_row expires_at))
  pure (ltb 0 affected))

abbrev pub finish_row : ImageGeneration → Row → Row
finish_row generation r = record r {
  status = generation.status;
  image_url = some generation.image_url;
  error_message = some generation.error_message;
  generation_time = some generation.generation_time;
  completed_at = optional_time_to_value generation.completed_at;
  cancelled_at = optional_time_to_value generation.cancelled_at;
  failure_code = some generation.failure_code;
  thumbnail_url = some generation.thumbnail_url;
  storage_key = some generation.storage_key;
  lease_expires_at = none;
  worker_id = none;
}

unfoldable pub finish_claimed_task : ImageGeneration → Action Database RepoError Bool
unfolding repo_invoke ensure_table
finish_claimed_task generation = repo_invoke (do
  ensure_table
  let p = held_by generation.id generation.user_id generation.worker_id
  affected ← execute (update_statement p p (finish_row generation))
  pure (ltb 0 affected))

abbrev pub defer_row : Text → Text → Row → Row
defer_row failure_code error_message r = record r {
  status = queued;
  retry_count = suc_ℤ r.retry_count;
  failure_code = some failure_code;
  error_message = some error_message;
  worker_id = none;
  lease_expires_at = none;
  started_at = none;
}

unfoldable pub defer_claimed_task_for_model_health :
    ℤ → ℤ → Text → Text → Text → Action Database RepoError Bool
unfolding repo_invoke ensure_table
defer_claimed_task_for_model_health id user_id worker_id failure_code error_message =
    repo_invoke (do
      ensure_table
      let p = held_by id user_id worker_id
      affected ← execute (update_statement p p (defer_row failure_code error_message))
      pure (ltb 0 affected))
