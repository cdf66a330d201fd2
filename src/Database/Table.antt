-- ===== src/Database/Table.antt =====
-- The table `image_generations` of Backend/src/database/ImageRepo.cpp: its rows, and what the WHERE,
-- SET and ORDER BY clauses of its statements say of them. A DATETIME column is its number of seconds
-- since the epoch, a nullable column an `Option`, the status column the status that it spells.
pub mod Laws
use text2image.Base.{
  ℕ, zero, suc, ◌+◌, ltb, ◌==◌, leb, ℤ, pos, negsuc, length, eqb_ℤ, ltb_ℤ, leb_ℤ, suc_ℤ, Bool, true,
  false, not, ◌&&◌, ◌||◌, Option, none, some, List, [], ◌∷◌, Text, eqb, if◌then◌else◌,
}
use text2image.Models.TaskStatus.{
  TaskStatus, pending, queued, generating, success, failed, cancelled, timeout, unknown,
}

pub record Row : Type 0 where
  pub id : ℤ
  pub user_id : ℤ
  pub request_id : Option Text
  pub prompt : Option Text
  pub negative_prompt : Option Text
  pub num_steps : Option ℤ
  pub height : Option ℤ
  pub width : Option ℤ
  pub seed : Option ℤ
  pub status : TaskStatus
  pub retry_count : ℤ
  pub max_retries : ℤ
  pub failure_code : Option Text
  pub worker_id : Option Text
  pub image_url : Option Text
  pub thumbnail_url : Option Text
  pub storage_key : Option Text
  pub error_message : Option Text
  pub generation_time : Option ℤ
  pub created_at : Option ℕ
  pub started_at : Option ℕ
  pub completed_at : Option ℕ
  pub cancelled_at : Option ℕ
  pub lease_expires_at : Option ℕ

-- `next_id` is the table's AUTO_INCREMENT counter.
pub record Table : Type 0 where
  pub rows : List Row
  pub next_id : ℕ

-- The characters of a text in UTF-8: the bytes that continue none.
unfoldable pub characters : Text → ℕ
characters [] = 0
characters (c ∷ s) = (if leb 128 c && ltb c 192 then 0 else 1) + characters s

-- `VARCHAR(width)`, `TEXT` and `INT` hold the value; the server is in strict mode.
abbrev pub fits_varchar : ℕ → Text → Bool
fits_varchar width s = leb (characters s) width

abbrev pub fits_text : Text → Bool
fits_text s = leb (length s) 65535

abbrev pub fits_int : ℤ → Bool
fits_int n = leb_ℤ (negsuc 2147483647) n && leb_ℤ n (pos 2147483647)

-- `column = ?`, which is not true of NULL.
abbrev pub column_is : Option Text → Text → Bool
column_is none value = false
column_is (some column) value = eqb column value

-- `column < ?`, likewise.
abbrev pub column_before : Option ℕ → ℕ → Bool
column_before none value = false
column_before (some column) value = ltb column value

abbrev pub column_at : Option ℕ → ℕ → Bool
column_at none value = false
column_at (some column) value = column == value

abbrev pub is_null : {A : Type 0} → Option A → Bool
is_null none = true
is_null (some _) = false

-- `status = 'generating'`
abbrev pub is_generating : TaskStatus → Bool
is_generating generating = true
is_generating _ = false

-- `status IN ('queued', 'pending')`
abbrev pub is_waiting : TaskStatus → Bool
is_waiting queued = true
is_waiting pending = true
is_waiting _ = false

-- `status IN ('queued', 'pending', 'generating')`
abbrev pub is_active : TaskStatus → Bool
is_active queued = true
is_active pending = true
is_active generating = true
is_active _ = false

-- `status IN ('success', 'failed', 'cancelled', 'timeout')`
abbrev pub is_finished : TaskStatus → Bool
is_finished success = true
is_finished failed = true
is_finished cancelled = true
is_finished timeout = true
is_finished _ = false

-- `status IN ('failed', 'timeout', 'cancelled')`
abbrev pub is_failed : TaskStatus → Bool
is_failed failed = true
is_failed timeout = true
is_failed cancelled = true
is_failed _ = false

-- `id = ? AND user_id = ?`
abbrev pub owned : ℤ → ℤ → Row → Bool
owned id user_id r = eqb_ℤ r.id id && eqb_ℤ r.user_id user_id

-- `id = ? AND user_id = ? AND status = 'generating' AND worker_id = ?`
abbrev pub held_by : ℤ → ℤ → Text → Row → Bool
held_by id user_id worker_id r =
    owned id user_id r && is_generating r.status && column_is r.worker_id worker_id

-- `status = 'generating' AND lease_expires_at IS NOT NULL AND lease_expires_at < ?`
abbrev pub is_expired : ℕ → Row → Bool
is_expired now r = is_generating r.status && column_before r.lease_expires_at now

abbrev pub expired_for_requeue : ℕ → Row → Bool
expired_for_requeue now r = is_expired now r && ltb_ℤ r.retry_count r.max_retries

abbrev pub expired_for_timeout : ℕ → Row → Bool
expired_for_timeout now r = is_expired now r && leb_ℤ r.max_retries r.retry_count

-- The tasks that `claimNextTask` may take.
abbrev pub claimable : ℕ → Row → Bool
claimable now r =
    is_waiting r.status
    || (is_generating r.status
        && (is_null r.lease_expires_at || column_before r.lease_expires_at now))

-- `IFNULL(started_at, ?)`
abbrev pub if_null : Option ℕ → ℕ → Option ℕ
if_null none value = some value
if_null (some column) value = some column

-- An UPDATE: the rows that pass the WHERE clause are set.
unfoldable pub update_where : (Row → Bool) → (Row → Row) → List Row → List Row
update_where p f [] = []
update_where p f (r ∷ rs) = (if p r then f r else r) ∷ update_where p f rs

-- A DELETE.
unfoldable pub delete_where : (Row → Bool) → List Row → List Row
delete_where p [] = []
delete_where p (r ∷ rs) = if p r then delete_where p rs else r ∷ delete_where p rs

-- A SELECT with no ORDER BY.
unfoldable pub select_where : (Row → Bool) → List Row → List Row
select_where p [] = []
select_where p (r ∷ rs) = if p r then r ∷ select_where p rs else select_where p rs

unfoldable pub count_where : (Row → Bool) → List Row → ℕ
count_where p [] = 0
count_where p (r ∷ rs) = (if p r then 1 else 0) + count_where p rs

-- `ORDER BY created_at ASC, id ASC`, where NULL comes first.
abbrev pub created_before : Option ℕ → Option ℕ → Bool
created_before none none = false
created_before none (some b) = true
created_before (some a) none = false
created_before (some a) (some b) = ltb a b

abbrev pub older : Row → Row → Bool
older r s =
    created_before r.created_at s.created_at
    || (not (created_before s.created_at r.created_at) && ltb_ℤ r.id s.id)

-- `ORDER BY id DESC`
abbrev pub newer_id : Row → Row → Bool
newer_id r s = ltb_ℤ s.id r.id

-- Insertion into a sorted list, behind the rows that come before or rank alike.
unfoldable pub insert_sorted : (Row → Row → Bool) → Row → List Row → List Row
insert_sorted before r [] = r ∷ []
insert_sorted before r (s ∷ rs) = if before r s then r ∷ s ∷ rs else s ∷ insert_sorted before r rs

unfoldable pub order_by : (Row → Row → Bool) → List Row → List Row
unfolding insert_sorted
order_by before [] = []
order_by before (r ∷ rs) = insert_sorted before r (order_by before rs)
