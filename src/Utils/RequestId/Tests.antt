-- ===== src/Utils/RequestId/Tests.antt =====
-- A request id with a line end.
use text2image.Base.{length, ◌≤◌, All, [], ◌∷◌, Text}
use text2image.Utils.RequestId.{sanitize_request_id}
use text2image.Utils.RequestId.Laws.{IsPrintable, sanitize_request_id-IsPrintable}

abbrev split_id : Text
split_id = b'a' ∷ 13 ∷ 10 ∷ b'b' ∷ []

sanitize_request_id-IsPrintable_example :
    All IsPrintable (sanitize_request_id split_id) × (length (sanitize_request_id split_id) ≤ 128)
sanitize_request_id-IsPrintable_example = sanitize_request_id-IsPrintable split_id
