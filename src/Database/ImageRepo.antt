-- ===== src/Database/ImageRepo.antt =====
-- Backend/src/database/ImageRepo.cpp: the methods that read the table, and the two halves of the
-- writers' bodies that they share. The methods that write stand in the children.
pub mod Claims
pub mod Leases
pub mod Owner
pub mod Calls
pub mod Safety
pub mod Lifecycle
pub mod Ownership
pub mod Claiming
pub mod RoundTrip
pub mod Paging
use text2image.Base.{
  ℕ, zero, suc, ◌*◌, ◌+◌, ltb, ◌==◌, ℤ, pos, pos_part, eqb_ℤ, ltb_ℤ, leb_ℤ, to_int32, Bool, true,
  false, not, ◌&&◌, Option, none, some, List, [], ◌∷◌, ◌++◌, map, Text, bytes, if◌then◌else◌,
  length, take, drop, head?, Action, Result, ok, err, ◌>>=◌, ◌>>◌, pure, fail, String,
}
use text2image.Utils.Chrono.{Time, seconds, floor_seconds, ticks_per_second}
use text2image.Models.TaskStatus.{TaskStatus, TaskStatus-discrete}
use text2image.Models.ImageGeneration.{ImageGeneration}
use text2image.Errors.Repo.{RepoError, Thrown, std_exception, repo_invoke}
use text2image.Database.Table.{
  Row, Table, owned, column_is, is_active, is_waiting, newer_id, older, order_by, select_where,
  count_where, delete_where, is_finished,
}
use text2image.Database.Session.{Database, Sql, execute, current_time, query, set_rows}

-- `ensureTable`: a statement of its own until it has succeeded once.
unfoldable pub ensure_table : Sql (Unit {0})
ensure_table db =
    let created = execute (λ d. (tt, record d { table_ready = true })) db in
    if db.table_ready then (ok tt, db) else created

-- `getStringOrEmpty`
abbrev pub get_string_or_empty : Option Text → Text
get_string_or_empty none = []
get_string_or_empty (some s) = s

-- `getIntOrDefault`
abbrev pub get_int_or_default : Option ℤ → ℤ → ℤ
get_int_or_default none fallback = fallback
get_int_or_default (some n) fallback = to_int32 n

-- `getDoubleOrDefault`
abbrev pub get_double_or_default : Option ℤ → ℤ → ℤ
get_double_or_default none fallback = fallback
get_double_or_default (some x) fallback = x

abbrev pub column_int : Option ℤ → Option ℤ
column_int none = none
column_int (some n) = some (to_int32 n)

abbrev pub column_time : Option ℕ → Option Time
column_time none = none
column_time (some s) = some (seconds s)

abbrev pub time_or : Option ℕ → Time → Time
time_or none now = now
time_or (some s) now = seconds s

-- A row of the right column types: the accessors do not throw. `now` stands for a missing creation
-- time.
unfoldable pub row_to_image_generation : Time → Row → ImageGeneration
row_to_image_generation now row = record {
  id = row.id;
  user_id = row.user_id;
  request_id = get_string_or_empty row.request_id;
  prompt = get_string_or_empty row.prompt;
  negative_prompt = get_string_or_empty row.negative_prompt;
  num_steps = get_int_or_default row.num_steps (pos 8);
  height = get_int_or_default row.height (pos 768);
  width = get_int_or_default row.width (pos 768);
  seed = column_int row.seed;
  status = row.status;
  retry_count = row.retry_count;
  max_retries = row.max_retries;
  failure_code = get_string_or_empty row.failure_code;
  worker_id = get_string_or_empty row.worker_id;
  image_url = get_string_or_empty row.image_url;
  thumbnail_url = get_string_or_empty row.thumbnail_url;
  storage_key = get_string_or_empty row.storage_key;
  image_bytes = [];
  error_message = get_string_or_empty row.error_message;
  generation_time = get_double_or_default row.generation_time (pos 0);
  created_at = time_or row.created_at now;
  started_at = column_time row.started_at;
  completed_at = column_time row.completed_at;
  cancelled_at = column_time row.cancelled_at;
  lease_expires_at = column_time row.lease_expires_at;
}

-- `fetchOne` and the conversion of the row.
unfoldable pub fetch_one : (Row → Bool) → Sql (Option ImageGeneration)
fetch_one p = do
  found ← execute (query (select_where p))
  now ← current_time
  pure (elim (head? found) [ none ↦ none | some row ↦ some (row_to_image_generation now row) ])

abbrev pub normalize_page : ℤ → ℕ
normalize_page page = if ltb_ℤ page (pos 0) then 0 else pos_part page

abbrev pub normalize_size : ℤ → ℕ
normalize_size size = if leb_ℤ size (pos 0) then 10 else pos_part size

pub record ImagePageResult : Type 0 where
  pub content : List ImageGeneration
  pub total_elements : ℕ

-- The query of one page with `COUNT(*) OVER()`, and the rows that `collectPagedResultRows` collects
-- with the total of the first of them.
abbrev pub page_rows : (Row → Bool) → ℕ → ℕ → List Row → List Row × ℕ
page_rows p size offset rows =
    let matching = order_by newer_id (select_where p rows) in
    (take size (drop offset matching), length matching)

abbrev pub collect_paged_result_rows : Time → List Row → ℕ → ImagePageResult
collect_paged_result_rows now [] total = record { content = []; total_elements = 0 }
collect_paged_result_rows now (r ∷ rs) total = record {
  content = map (row_to_image_generation now) (r ∷ rs);
  total_elements = total;
}

abbrev pub is_empty_page : ImagePageResult → Bool
is_empty_page page = elim page.content [ [] ↦ true | _ ∷ _ ↦ false ]

-- The body that `findByUserId` and `findByUserIdAndStatus` have in common: one page, and the total by
-- a query of its own where the page lies behind the end.
unfoldable pub find_page : (Row → Bool) → ℤ → ℤ → Sql ImagePageResult
unfolding ensure_table
find_page p page size = do
  ensure_table
  let offset = normalize_page page * normalize_size size
  found ← execute (query (page_rows p (normalize_size size) offset))
  now ← current_time
  let result = collect_paged_result_rows now found.0 found.1
  let recount = do
    total ← execute (query (count_where p))
    pure (record result { total_elements = total })
  if is_empty_page result && ltb 0 offset then recount else pure result

unfoldable pub find_by_user_id : ℤ → ℤ → ℤ → Action Database RepoError ImagePageResult
unfolding repo_invoke find_page
find_by_user_id user_id page size = repo_invoke (find_page (λ r. eqb_ℤ r.user_id user_id) page size)

-- `status = ?`
abbrev pub status_is : TaskStatus → TaskStatus → Bool
status_is status s = elim (TaskStatus-discrete s status) [ yes _ ↦ true | no _ ↦ false ]

unfoldable pub find_by_user_id_and_status :
    ℤ → TaskStatus → ℤ → ℤ → Action Database RepoError ImagePageResult
unfolding repo_invoke find_page
find_by_user_id_and_status user_id status page size =
    repo_invoke (find_page (λ r. eqb_ℤ r.user_id user_id && status_is status r.status) page size)

unfoldable pub find_by_id_and_user_id : ℤ → ℤ → Action Database RepoError (Option ImageGeneration)
unfolding repo_invoke ensure_table fetch_one
find_by_id_and_user_id id user_id = repo_invoke (do ensure_table; fetch_one (owned id user_id))

unfoldable pub find_by_request_id_and_user_id :
    Text → ℤ → Action Database RepoError (Option ImageGeneration)
unfolding repo_invoke ensure_table fetch_one
find_by_request_id_and_user_id request_id user_id =
    repo_invoke (do
      ensure_table
      fetch_one (λ r. column_is r.request_id request_id && eqb_ℤ r.user_id user_id))

unfoldable pub count_active_tasks_by_user_id : ℤ → Action Database RepoError ℕ
unfolding repo_invoke ensure_table
count_active_tasks_by_user_id user_id = repo_invoke (do
  ensure_table
  execute (query (count_where (λ r. eqb_ℤ r.user_id user_id && is_active r.status))))

unfoldable pub find_queued_task_ids : Action Database RepoError (List ℤ)
unfolding repo_invoke ensure_table
find_queued_task_ids = repo_invoke (do
  ensure_table
  found ← execute (query (λ rows. order_by older (select_where (λ r. is_waiting r.status) rows)))
  pure (map (λ r. r.id) found))
