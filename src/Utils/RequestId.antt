-- ===== src/Utils/RequestId.antt =====
-- `sanitizeRequestId` of Backend/src/utils/request_id.cpp: what of a request id may stand in a header
-- and in a log line.
pub mod Laws
mod Tests
use text2image.Base.{
  ℕ, zero, suc, ◌==◌, leb, ltb, Bool, ◌||◌, not, List, [], ◌∷◌, all, length, Text, is_alnum,
  is_empty, trim, if◌then◌else◌,
}

abbrev pub max_length : ℕ
max_length = 128

abbrev pub is_allowed_char : ℕ → Bool
is_allowed_char c = is_alnum c || c == b'.' || c == b'_' || c == b':' || c == b'-'

abbrev pub is_blank : ℕ → Bool
is_blank c = leb c b' '

-- The test of the trimmed text.
unfoldable pub checked_id : Text → Text
checked_id trimmed =
    if is_empty trimmed || ltb max_length (length trimmed)
    then []
    else if all is_allowed_char trimmed
    then trimmed
    else []

unfoldable pub sanitize_request_id : Text → Text
unfolding checked_id
sanitize_request_id raw = checked_id (trim is_blank raw)
