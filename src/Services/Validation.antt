-- ===== src/Services/Validation.antt =====
-- `validateGenerationParams` of Backend/src/services/image_service.cpp.
pub mod Laws
use text2image.Base.{
  ℕ, ℤ, pos, ltb, ltb_ℤ, ◌==◌, not, ◌&&◌, ◌||◌, Bool, true, false, Option, none, some, List, [],
  ◌∷◌, all, length, multiple_of, Text, is_alnum, is_empty, is_space, trim, if◌then◌else◌,
}
use text2image.Models.ImageGeneration.{ImageGeneration}
use text2image.Errors.{ServiceError, service_error, bad_request}

abbrev pub prompt_min_length : ℕ
prompt_min_length = 3

abbrev pub prompt_max_length : ℕ
prompt_max_length = 1000

abbrev pub negative_prompt_max_length : ℕ
negative_prompt_max_length = 500

abbrev pub min_image_size : ℕ
min_image_size = 512

abbrev pub max_image_size : ℕ
max_image_size = 2048

abbrev pub image_size_step : ℕ
image_size_step = 64

abbrev pub min_num_steps : ℕ
min_num_steps = 1

abbrev pub max_num_steps : ℕ
max_num_steps = 50

abbrev pub max_request_id_length : ℕ
max_request_id_length = 64

unfoldable pub trim_in_place : Text → Text
trim_in_place s = trim is_space s

abbrev pub is_id_byte : ℕ → Bool
is_id_byte c = is_alnum c || c == b'_' || c == b'-'

unfoldable pub is_valid_request_id : Text → Bool
is_valid_request_id [] = false
is_valid_request_id (c ∷ s) =
    if ltb max_request_id_length (length (c ∷ s))
    then false
    else if not (is_alnum c)
    then false
    else all is_id_byte (c ∷ s)

-- `size < kMinImageSize || size > kMaxImageSize || size % kImageSizeStep != 0`
abbrev pub is_invalid_image_size : ℤ → Bool
is_invalid_image_size size =
    ltb_ℤ size (pos min_image_size)
    || ltb_ℤ (pos max_image_size) size
    || not (multiple_of image_size_step size)

abbrev pub is_negative_seed : Option ℤ → Bool
is_negative_seed none = false
is_negative_seed (some seed) = ltb_ℤ seed (pos 0)

unfoldable pub trimmed : ImageGeneration → ImageGeneration
trimmed g = record g {
  prompt = trim_in_place g.prompt;
  negative_prompt = trim_in_place g.negative_prompt;
  request_id = trim_in_place g.request_id;
}

-- The checks, on the trimmed generation.
unfoldable pub check_params : ImageGeneration → Option ServiceError
check_params g =
    if not (is_empty g.request_id) && not (is_valid_request_id g.request_id)
    then some (
        service_error bad_request "invalid_request_id"
          "request_id must match ^[A-Za-z0-9][A-Za-z0-9_-]{0,63}$")
    else if is_empty g.prompt
    then some (service_error bad_request "prompt_required" "prompt is required")
    else if ltb (length g.prompt) prompt_min_length || ltb prompt_max_length (length g.prompt)
    then some (
        service_error bad_request "invalid_prompt_length"
          "prompt length must be between 3 and 1000 characters")
    else if ltb negative_prompt_max_length (length g.negative_prompt)
    then some (
        service_error bad_request "invalid_negative_prompt_length"
          "negative_prompt must be at most 500 characters")
    else if ltb_ℤ g.num_steps (pos min_num_steps) || ltb_ℤ (pos max_num_steps) g.num_steps
    then some (service_error bad_request "invalid_num_steps" "num_steps must be between 1 and 50")
    else if is_invalid_image_size g.width
    then some (
        service_error bad_request "invalid_width"
          "width must be between 512 and 2048 and a multiple of 64")
    else if is_invalid_image_size g.height
    then some (
        service_error bad_request "invalid_height"
          "height must be between 512 and 2048 and a multiple of 64")
    else if is_negative_seed g.seed
    then some (service_error bad_request "invalid_seed" "seed must be >= 0")
    else none

-- What it returns, and the generation that it leaves.
unfoldable pub validate_generation_params : ImageGeneration → Option ServiceError × ImageGeneration
validate_generation_params g = (check_params (trimmed g), trimmed g)
