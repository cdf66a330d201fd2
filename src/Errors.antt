-- ===== src/Errors.antt =====
-- The layered error model: an exception of the database layer becomes a `RepoError`, that becomes a
-- `ServiceError` with its HTTP status. Backend/include/services/service_error.h,
-- Backend/include/database/repo_error.h, Backend/include/services/i_http_client.h.
pub mod Repo
pub mod Http
use text2image.Base.{ℕ, ℤ, Option, none, some, List, [], ◌∷◌, String, Text, bytes}

abbrev pub bad_request : ℕ
bad_request = 400

abbrev pub unauthorized_status : ℕ
unauthorized_status = 401

abbrev pub not_found : ℕ
not_found = 404

abbrev pub conflict : ℕ
conflict = 409

abbrev pub too_many : ℕ
too_many = 429

abbrev pub internal_server_error : ℕ
internal_server_error = 500

abbrev pub bad_gateway : ℕ
bad_gateway = 502

abbrev pub service_unavailable : ℕ
service_unavailable = 503

-- A member of the `details` object of an error.
pub data Detail : Type 0 where
  text : Text → Detail
  number : ℤ → Detail

pub record ServiceError : Type 0 where
  pub status : ℕ
  pub code : Text
  pub message : Text
  pub details : List (Text × Detail)

-- `ServiceError{status, code, message}`
abbrev pub service_error : ℕ → String → String → ServiceError
service_error status code message = record {
  status = status;
  code = bytes code;
  message = bytes message;
  details = [];
}

abbrev pub too_many_requests : Text → Text → ServiceError
too_many_requests code message = record {
  status = too_many;
  code = code;
  message = message;
  details = [];
}
