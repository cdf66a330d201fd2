-- ===== src/Models/TaskStatus/Laws.antt =====
-- What the status predicates and spellings promise.
use text2image.Base.{◌≡◌, refl, [], ◌∷◌, map, Text, bytes, eqb, arith, length, lower_char}
use text2image.Models.TaskStatus.{
  TaskStatus, pending, queued, generating, success, failed, cancelled, timeout, unknown,
  status_from_string, status_to_string, ci_equals, ci_equals_from, normalize_task_status,
}

-- Every status is read back from the text that it is written as.
pub status_from_string-status_to_string :
    (s : TaskStatus) → status_from_string (status_to_string s) ≡ s
unfolding status_from_string status_to_string eqb bytes
status_from_string-status_to_string pending = refl
status_from_string-status_to_string queued = refl
status_from_string-status_to_string generating = refl
status_from_string-status_to_string success = refl
status_from_string-status_to_string failed = refl
status_from_string-status_to_string cancelled = refl
status_from_string-status_to_string timeout = refl
status_from_string-status_to_string unknown = refl

lower_char_idem : (c : Prim.Native.Nat.ℕ) → lower_char (lower_char c) ≡ lower_char c
lower_char_idem c = ground arith

ci_equals_from-lower : (s t : Text) → ci_equals_from (map lower_char s) t ≡ ci_equals_from s t
ci_equals_from-lower [] t = refl
ci_equals_from-lower (c ∷ s) [] = refl
ci_equals_from-lower (c ∷ s) (d ∷ t) = rw (lower_char_idem c, ci_equals_from-lower s t)

length-lower : (s : Text) → length (map lower_char s) ≡ length s
length-lower [] = refl
length-lower (c ∷ s) = omega (arith, length-lower s)

lower-lower : (s : Text) → map lower_char (map lower_char s) ≡ map lower_char s
lower-lower [] = refl
lower-lower (c ∷ s) = rw (lower_char_idem c, lower-lower s) refl

ci_equals-lower : (s t : Text) → ci_equals (map lower_char s) t ≡ ci_equals s t
unfolding ci_equals
ci_equals-lower s t = rw (length-lower s, ci_equals_from-lower s t) refl

-- Normalising a status does not depend on the case of its letters.
pub normalize_task_status-lower :
    (s : Text) → normalize_task_status (map lower_char s) ≡ normalize_task_status s
unfolding normalize_task_status
normalize_task_status-lower s = simp (ci_equals-lower s, length-lower s, lower-lower s)

-- Every status is also what normalising its own text gives.
pub normalize_task_status-status_to_string :
    (s : TaskStatus) → normalize_task_status (status_to_string s) ≡ s
unfolding normalize_task_status status_from_string status_to_string ci_equals eqb bytes
normalize_task_status-status_to_string pending = refl
normalize_task_status-status_to_string queued = refl
normalize_task_status-status_to_string generating = refl
normalize_task_status-status_to_string success = refl
normalize_task_status-status_to_string failed = refl
normalize_task_status-status_to_string cancelled = refl
normalize_task_status-status_to_string timeout = refl
normalize_task_status-status_to_string unknown = refl
