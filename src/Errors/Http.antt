-- ===== src/Errors/Http.antt =====
-- Backend/src/services/http_error_mapper.cpp, and `HttpResult::toExpectedBody` of
-- Backend/src/services/client.cpp.
use text2image.Base.{
  ℕ, ℤ, pos, Option, none, some, List, [], ◌∷◌, ◌++◌, String, Text, bytes, is_empty, if◌then◌else◌,
  ◌&&◌, leb_ℤ, ltb_ℤ, eqb_ℤ, Result, ok, err,
}
use text2image.Errors.{ServiceError, Detail, service_unavailable, bad_gateway}

pub record HttpError : Type 0 where
  pub status_code : ℤ
  pub message : Text

pub record HttpResult : Type 0 where
  pub status_code : ℤ
  pub body : Text
  pub failure : Option HttpError

unfoldable pub make_details : HttpError → List (Text × Detail)
make_details e =
    (bytes "status_code", Detail.number e.status_code)
    ∷ (if is_empty e.message then [] else (bytes "reason", Detail.text e.message) ∷ [])

unfoldable pub map_http_error : HttpError → ServiceError
unfolding make_details
map_http_error e =
    if eqb_ℤ e.status_code (pos 0)
    then with_details service_unavailable "model_service_unavailable" "model service is unavailable"
    else if leb_ℤ (pos 500) e.status_code
    then with_details bad_gateway "model_service_error" "model service returned an error"
    else if leb_ℤ (pos 400) e.status_code
    then with_details bad_gateway "model_service_error" "model service rejected the request"
    else with_details bad_gateway "model_service_error" "model service request failed"
  where
    with_details : ℕ → String → String → ServiceError
    with_details status code message = record {
      status = status;
      code = bytes code;
      message = bytes message;
      details = make_details e;
    }

-- `to_string` of a status code is the standard library's.
unfoldable pub to_expected_body : (ℤ → Text) → HttpResult → Result HttpError Text
to_expected_body to_string r = elim r.failure [
  | some e ↦ err e
  | none ↦
      if leb_ℤ (pos 200) r.status_code && ltb_ℤ r.status_code (pos 300)
      then ok r.body
      else err (record {
        status_code = r.status_code;
        message = bytes "http status " ++ to_string r.status_code;
      })
]
