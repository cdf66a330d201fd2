-- ===== src/Models/FailureCode.antt =====
-- Backend/include/models/failure_code.h: the failure codes that the workers and the scanner write.
use text2image.Base.{Text, bytes}

abbrev pub python_service_request_failed : Text
python_service_request_failed = bytes "python_service_request_failed"

abbrev pub python_service_empty_response : Text
python_service_empty_response = bytes "python_service_empty_response"

abbrev pub python_service_invalid_json : Text
python_service_invalid_json = bytes "python_service_invalid_json"

abbrev pub python_service_exception : Text
python_service_exception = bytes "python_service_exception"

abbrev pub python_service_unknown_exception : Text
python_service_unknown_exception = bytes "python_service_unknown_exception"

abbrev pub missing_image_payload : Text
missing_image_payload = bytes "missing_image_payload"

abbrev pub storage_write_failed : Text
storage_write_failed = bytes "storage_write_failed"

abbrev pub lease_expired : Text
lease_expired = bytes "lease_expired"

abbrev pub lease_expired_max_retries : Text
lease_expired_max_retries = bytes "lease_expired_max_retries"

abbrev pub model_service_unavailable : Text
model_service_unavailable = bytes "model_service_unavailable"
