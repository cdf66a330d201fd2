-- ===== src/Models/TaskStatus.antt =====
-- Backend/include/models/task_status.h: the task status, its predicates and its spellings.
pub mod Laws
use text2image.Base.{
  ℕ, zero, suc, ◌==◌, leb, ltb_ℤ, leb_ℤ, ℤ, Bool, true, false, not, ◌&&◌, ◌||◌, List, [], ◌∷◌,
  if◌then◌else◌, Text, bytes, eqb, is_empty, lower_char, length, map,
}

pub data TaskStatus : Type 0 where
  pending queued generating success failed cancelled timeout unknown : TaskStatus

pub TaskStatus-discrete : Discrete TaskStatus
TaskStatus-discrete = hlevel

abbrev pub is_terminal : TaskStatus → Bool
is_terminal success = true
is_terminal failed = true
is_terminal cancelled = true
is_terminal timeout = true
is_terminal _ = false

abbrev pub can_cancel : TaskStatus → Bool
can_cancel pending = true
can_cancel queued = true
can_cancel generating = true
can_cancel _ = false

abbrev pub is_retryable : TaskStatus → Bool
is_retryable failed = true
is_retryable timeout = true
is_retryable cancelled = true
is_retryable _ = false

abbrev pub can_retry : TaskStatus → ℤ → ℤ → Bool
can_retry s retry_count max_retries =
    if leb_ℤ max_retries retry_count then false else is_retryable s

abbrev pub can_delete : TaskStatus → Bool
can_delete s = is_terminal s

abbrev pub is_success : TaskStatus → Bool
is_success success = true
is_success _ = false

abbrev pub can_return_binary : TaskStatus → Text → Bool
can_return_binary s storage_key = is_success s && not (is_empty storage_key)

-- The loop over the positions, entered when the sizes agree.
abbrev pub ci_equals_from : Text → Text → Bool
ci_equals_from (c ∷ a) (d ∷ b) = lower_char c == lower_char d && ci_equals_from a b
ci_equals_from _ _ = true

unfoldable pub ci_equals : Text → Text → Bool
ci_equals a b = if not (length a == length b) then false else ci_equals_from a b

unfoldable pub status_from_string : Text → TaskStatus
status_from_string s =
    if eqb s (bytes "pending")
    then pending
    else if eqb s (bytes "queued")
    then queued
    else if eqb s (bytes "generating")
    then generating
    else if eqb s (bytes "success")
    then success
    else if eqb s (bytes "failed")
    then failed
    else if eqb s (bytes "cancelled")
    then cancelled
    else if eqb s (bytes "timeout")
    then timeout
    else unknown

unfoldable pub status_to_string : TaskStatus → Text
status_to_string pending = bytes "pending"
status_to_string queued = bytes "queued"
status_to_string generating = bytes "generating"
status_to_string success = bytes "success"
status_to_string failed = bytes "failed"
status_to_string cancelled = bytes "cancelled"
status_to_string timeout = bytes "timeout"
status_to_string unknown = bytes "unknown"

-- `sizeof(buf)`
abbrev pub status_buffer_size : ℕ
status_buffer_size = 32

unfoldable pub normalize_task_status : Text → TaskStatus
normalize_task_status raw =
    if ci_equals raw (bytes "success")
      || ci_equals raw (bytes "succeeded")
      || ci_equals raw (bytes "completed")
      || ci_equals raw (bytes "done")
      || ci_equals raw (bytes "ok")
    then success
    else if ci_equals raw (bytes "failed")
        || ci_equals raw (bytes "failure")
        || ci_equals raw (bytes "error")
    then failed
    else if ci_equals raw (bytes "queued")
    then queued
    else if ci_equals raw (bytes "pending")
    then pending
    else if ci_equals raw (bytes "processing") || ci_equals raw (bytes "generating")
    then generating
    else if leb status_buffer_size (length raw)
    then unknown
    else status_from_string (map lower_char raw)
