-- ===== src/Database/ImageRepo/Owner.antt =====
-- The methods of Backend/src/database/ImageRepo.cpp that serve a user's requests: to insert, cancel,
-- retry and delete a task; and `updateStatusAndError`.

use text2image.Base.{
  ℕ, suc, ltb, ◌==◌, ℤ, pos, ltb_ℤ, suc_ℤ, Bool, true, false, not, ◌&&◌, Option, none, some, [],
  ◌∷◌, ◌++◌, Text, bytes, if◌then◌else◌, Action, ◌>>=◌, ◌>>◌, pure, fail,
}
use text2image.Utils.Chrono.{Time, floor_seconds}
use text2image.Models.TaskStatus.{TaskStatus, queued, cancelled, is_terminal}
use text2image.Models.ImageGeneration.{ImageGeneration}
use text2image.Errors.Repo.{RepoError, std_exception, mysqlx_error, repo_invoke}
use text2image.Database.Table.{
  Row, fits_varchar, fits_text, fits_int, characters, owned, is_active, is_finished, is_failed,
  delete_where, count_where, column_is, column_at, is_null,
}
use text2image.Database.Session.{Database, Sql, execute, current_time, update_statement, set_rows}
use text2image.Database.ImageRepo.{ensure_table, fetch_one, status_is}
use text2image.Database.ImageRepo.Claims.{optional_time_to_value}

-- The row that `insert` binds: the id is the table's, a missing creation time is now.
abbrev pub inserted_row : ℕ → Time → ImageGeneration → Row
inserted_row id created_at g = record {
  id = pos id;
  user_id = g.user_id;
  request_id = some g.request_id;
  prompt = some g.prompt;
  negative_prompt = some g.negative_prompt;
  num_steps = some g.num_steps;
  height = some g.height;
  width = some g.width;
  seed = g.seed;
  status = g.status;
  retry_count = g.retry_count;
  max_retries = g.max_retries;
  failure_code = some g.failure_code;
  worker_id = some g.worker_id;
  image_url = some g.image_url;
  thumbnail_url = some g.thumbnail_url;
  storage_key = some g.storage_key;
  error_message = some g.error_message;
  generation_time = some g.generation_time;
  created_at = some (floor_seconds created_at);
  started_at = optional_time_to_value g.started_at;
  completed_at = optional_time_to_value g.completed_at;
  cancelled_at = optional_time_to_value g.cancelled_at;
  lease_expires_at = optional_time_to_value g.lease_expires_at;
}

-- The widths of the columns that `ensureTable` creates; the spellings of the status fit theirs.
abbrev pub seed_fits : Option ℤ → Bool
seed_fits none = true
seed_fits (some seed) = fits_int seed

unfoldable pub fits_columns : ImageGeneration → Bool
unfolding characters
fits_columns g =
    fits_varchar 64 g.request_id
    && fits_text g.prompt
    && fits_text g.negative_prompt
    && fits_int g.num_steps
    && fits_int g.height
    && fits_int g.width
    && seed_fits g.seed
    && fits_int g.retry_count
    && fits_int g.max_retries
    && fits_varchar 64 g.failure_code
    && fits_varchar 128 g.worker_id
    && fits_varchar 500 g.image_url
    && fits_varchar 500 g.thumbnail_url
    && fits_varchar 255 g.storage_key
    && fits_text g.error_message

-- A value that its column cannot hold refuses the row, before it is given a number.
abbrev pub insert_if : Bool → ImageGeneration → Time → Database → Bool × Database
insert_if false g created_at db = (false, db)
insert_if true g created_at db = (
  true,
  record db {
    table = record {
      rows = db.table.rows ++ inserted_row db.table.next_id created_at g ∷ [];
      next_id = suc db.table.next_id;
    };
    last_insert_id = some db.table.next_id;
  },
)

abbrev pub insert_statement : ImageGeneration → Time → Database → Bool × Database
insert_statement g created_at = insert_if (fits_columns g) g created_at

-- The server's message names the column.
abbrev pub or_too_long : Bool → Sql (Unit {0})
or_too_long true = pure tt
or_too_long false = fail (mysqlx_error (bytes "Data too long for column"))

abbrev pub inserted_id : Option ℕ → Sql ℤ
inserted_id none = fail (std_exception (bytes "failed to fetch inserted image id"))
inserted_id (some id) = pure (pos id)

unfoldable pub insert : ImageGeneration → Action Database RepoError ℤ
unfolding repo_invoke ensure_table fits_columns
insert generation = repo_invoke (do
  ensure_table
  now ← current_time
  fitted ← execute (
      insert_statement generation
        (if generation.created_at == 0 then now else generation.created_at))
  or_too_long fitted
  id ← execute (λ db. (db.last_insert_id, db))
  inserted_id id)

-- The readback of `cancelByIdAndUserId` and `retryByIdAndUserId`: a row that vanished is an error.
abbrev pub or_vanished : Text → Option ImageGeneration → Sql (Option ImageGeneration)
or_vanished message none = fail (std_exception message)
or_vanished message (some g) = pure (some g)

abbrev pub cancel_row : ℕ → Row → Row
cancel_row now r = record r {
  status = cancelled;
  cancelled_at = some now;
  lease_expires_at = none;
  worker_id = none;
  error_message = some [];
  failure_code = some [];
  completed_at = some now;
}

abbrev pub is_cancellable : ℤ → ℤ → Row → Bool
is_cancellable id user_id r = owned id user_id r && is_active r.status

-- The exception's message names the row's ids by `std::format`.
unfoldable pub cancel_by_id_and_user_id :
    (ℤ → ℤ → Text) → ℤ → ℤ → Action Database RepoError (Option ImageGeneration)
unfolding repo_invoke ensure_table fetch_one
cancel_by_id_and_user_id vanished id user_id = repo_invoke (do
  ensure_table
  now ← current_time
  let p = is_cancellable id user_id
  affected ← execute (update_statement p p (cancel_row (floor_seconds now)))
  let readback = do row ← fetch_one (owned id user_id); or_vanished (vanished id user_id) row
  if affected == 0 then pure none else readback)

abbrev pub retry_row : Row → Row
retry_row r = record r {
  status = queued;
  retry_count = suc_ℤ r.retry_count;
  failure_code = some [];
  error_message = some [];
  image_url = some [];
  thumbnail_url = some [];
  storage_key = some [];
  generation_time = some (pos 0);
  worker_id = none;
  lease_expires_at = none;
  started_at = none;
  completed_at = none;
  cancelled_at = none;
}

abbrev pub is_retryable_row : ℤ → ℤ → Row → Bool
is_retryable_row id user_id r =
    owned id user_id r && is_failed r.status && ltb_ℤ r.retry_count r.max_retries

unfoldable pub retry_by_id_and_user_id :
    (ℤ → ℤ → Text) → ℤ → ℤ → Action Database RepoError (Option ImageGeneration)
unfolding repo_invoke ensure_table fetch_one
retry_by_id_and_user_id vanished id user_id = repo_invoke (do
  ensure_table
  let p = is_retryable_row id user_id
  affected ← execute (update_statement p p retry_row)
  let readback = do row ← fetch_one (owned id user_id); or_vanished (vanished id user_id) row
  if affected == 0 then pure none else readback)

abbrev pub is_deletable : ℤ → ℤ → Row → Bool
is_deletable id user_id r = owned id user_id r && is_finished r.status

abbrev pub delete_statement : (Row → Bool) → Database → ℕ × Database
delete_statement p db = (count_where p db.table.rows, set_rows db (delete_where p db.table.rows))

unfoldable pub delete_by_id_and_user_id : ℤ → ℤ → Action Database RepoError Bool
unfolding repo_invoke ensure_table
delete_by_id_and_user_id id user_id = repo_invoke (do
  ensure_table
  affected ← execute (delete_statement (is_deletable id user_id))
  pure (ltb 0 affected))

abbrev pub status_row : TaskStatus → Text → Option ℕ → Row → Row
status_row status error_message completed_at r = record r {
  status = status;
  error_message = some error_message;
  completed_at = completed_at;
}

abbrev pub same_time : Option ℕ → Option ℕ → Bool
same_time none column = is_null column
same_time (some t) column = column_at column t

-- A row counts as affected if one of the three columns changes.
unfoldable pub update_status_and_error : ℤ → ℤ → TaskStatus → Text → Action Database RepoError Bool
unfolding repo_invoke ensure_table
update_status_and_error id user_id status error_message = repo_invoke (do
  ensure_table
  now ← current_time
  let completed_at = if is_terminal status then some (floor_seconds now) else none
  let p = owned id user_id
  let changed = λ (r : Row).
      p r
      && not (
          status_is status r.status
          && column_is r.error_message error_message
          && same_time completed_at r.completed_at)
  affected ← execute (update_statement changed p (status_row status error_message completed_at))
  pure (ltb 0 affected))
