-- ===== src/Services/ImageService.antt =====
-- Backend/src/services/image_service.cpp: the operations behind the image endpoints.
pub mod Cache
pub mod Reads
pub mod Writes
pub mod Errors
pub mod Success
pub mod Presign
pub mod Frame
use text2image.Base.{ℤ, pos, ltb_ℤ, List, [], ◌∷◌, Text, bytes, Action, guard}
use text2image.Models.TaskStatus.{TaskStatus, status_to_string}
use text2image.Errors.{ServiceError, Detail, text, service_error, unauthorized_status, not_found}
use text2image.Services.Effects.{Failure, returned}

abbrev pub unauthorized : ServiceError
unauthorized = service_error unauthorized_status "unauthorized" "unauthorized"

abbrev pub image_not_found : ServiceError
image_not_found = service_error not_found "image_not_found" "image not found"

abbrev pub task_not_found : ServiceError
task_not_found = service_error not_found "task_not_found" "task not found"

-- The guard that every operation starts with.
abbrev pub require_user : {W : Type 0} → ℤ → Action W Failure (Unit {0})
require_user user_id = guard (ltb_ℤ (pos 0) user_id) (returned unauthorized)

-- `err.details["status"] = ...`
abbrev pub status_detail : TaskStatus → List (Text × Detail)
status_detail status = (bytes "status", text (status_to_string status)) ∷ []
