-- ===== src/Services/Validation/Laws.antt =====
-- What `validateGenerationParams` accepts.
use text2image.Base.{
  ◌≡◌, refl, ◌↔◌, ◌≤◌, ℕ, ◌%◌, ℤ, pos, negsuc, ◌≤ℤ◌, ltb, ltb_ℤ, Bool, true, false, not, ◌&&◌, ◌||◌,
  Option, none, some, [], ◌∷◌, All, all, length, Text, is_alnum, is_empty, if◌then◌else◌, arith,
}
use text2image.Models.ImageGeneration.{ImageGeneration}
use text2image.Errors.{ServiceError}
use text2image.Services.Validation.{
  is_id_byte, is_valid_request_id, is_invalid_image_size, is_negative_seed, trimmed, check_params,
  validate_generation_params,
}

-- ^[A-Za-z0-9][A-Za-z0-9_-]{0,63}$
abbrev pub MatchesPattern : Text → Type 0
MatchesPattern [] = ⊥
MatchesPattern (c ∷ s) = (is_alnum c ≡ true) × All (λ d. is_id_byte d ≡ true) s × (length s ≤ 63)

-- A request id is left out, or it has the shape that the pattern gives.
abbrev pub IsRequestId : Text → Type 0
IsRequestId [] = Unit {0}
IsRequestId (c ∷ s) = MatchesPattern (c ∷ s)

abbrev pub IsImageSize : ℤ → Type 0
IsImageSize (pos n) = (512 ≤ n) × (n ≤ 2048) × (n % 64 ≡ 0)
IsImageSize (negsuc n) = ⊥

abbrev pub IsSeed : Option ℤ → Type 0
IsSeed none = Unit {0}
IsSeed (some seed) = pos 0 ≤ℤ seed

pub record IsAccepted (g : ImageGeneration) : Type 0 where
  pub request_id : IsRequestId g.request_id
  pub prompt : (3 ≤ length g.prompt) × (length g.prompt ≤ 1000)
  pub negative_prompt : length g.negative_prompt ≤ 500
  pub num_steps : (pos 1 ≤ℤ g.num_steps) × (g.num_steps ≤ℤ pos 50)
  pub width : IsImageSize g.width
  pub height : IsImageSize g.height
  pub seed : IsSeed g.seed

all-All : (p : ℕ → Bool) (s : Text) → (all p s ≡ true) ↔ All (λ c. p c ≡ true) s
all-All p [] = ground arith
all-All p (c ∷ s) = ground (arith, all-All p s)

alnum-IsIdByte : (c : ℕ) → is_alnum c ≡ true → is_id_byte c ≡ true
alnum-IsIdByte c e = rw e refl

is_valid_request_id_iff : (s : Text) → (is_valid_request_id s ≡ true) ↔ MatchesPattern s
unfolding is_valid_request_id
is_valid_request_id_iff [] = ground arith
is_valid_request_id_iff (c ∷ s) = ground (arith, all-All is_id_byte s, alnum-IsIdByte c)

IsImageSize-iff : (size : ℤ) → (is_invalid_image_size size ≡ false) ↔ IsImageSize size
IsImageSize-iff (pos n) = ground arith
IsImageSize-iff (negsuc n) = ground arith

IsRequestId-iff :
    (s : Text) → (not (is_empty s) && not (is_valid_request_id s) ≡ false) ↔ IsRequestId s
IsRequestId-iff [] = ground arith
IsRequestId-iff (c ∷ s) = ground (arith, is_valid_request_id_iff (c ∷ s))

IsSeed-iff : (seed : Option ℤ) → (is_negative_seed seed ≡ false) ↔ IsSeed seed
IsSeed-iff none = ground arith
IsSeed-iff (some seed) = ground arith

prompt_iff :
    (s : Text)
    → ((is_empty s ≡ false) × (ltb (length s) 3 || ltb 1000 (length s) ≡ false))
      ↔ ((3 ≤ length s) × (length s ≤ 1000))
prompt_iff [] = ground arith
prompt_iff (c ∷ s) = ground arith

negative_prompt_iff : (s : Text) → (ltb 500 (length s) ≡ false) ↔ (length s ≤ 500)
negative_prompt_iff s = ground arith

num_steps_iff :
    (n : ℤ) → (ltb_ℤ n (pos 1) || ltb_ℤ (pos 50) n ≡ false) ↔ ((pos 1 ≤ℤ n) × (n ≤ℤ pos 50))
num_steps_iff (pos n) = ground arith
num_steps_iff (negsuc n) = ground arith

-- A check that passes leaves the later ones.
check_iff :
    (b : Bool) (e : ServiceError) (k : Option ServiceError)
    → ((if b then some e else k) ≡ none) ↔ ((b ≡ false) × (k ≡ none))
check_iff true e k = ground arith
check_iff false e k = ground arith

passes : (g : ImageGeneration) → IsAccepted g → check_params g ≡ none
unfolding check_params
passes g a = (check_iff _ _ _).1 (
  (IsRequestId-iff g.request_id).1 a.request_id,
  (check_iff _ _ _).1 (
    ((prompt_iff g.prompt).1 a.prompt).0,
    (check_iff _ _ _).1 (
      ((prompt_iff g.prompt).1 a.prompt).1,
      (check_iff _ _ _).1 (
        (negative_prompt_iff g.negative_prompt).1 a.negative_prompt,
        (check_iff _ _ _).1 (
          (num_steps_iff g.num_steps).1 a.num_steps,
          (check_iff _ _ _).1 (
            (IsImageSize-iff g.width).1 a.width,
            (check_iff _ _ _).1 (
              (IsImageSize-iff g.height).1 a.height,
              (check_iff _ _ _).1 ((IsSeed-iff g.seed).1 a.seed, refl),
            ),
          ),
        ),
      ),
    ),
  ),
)

accepted : (g : ImageGeneration) → check_params g ≡ none → IsAccepted g
unfolding check_params
accepted g h =
    let c1 = (check_iff _ _ _).0 h in
    let c2 = (check_iff _ _ _).0 c1.1 in
    let c3 = (check_iff _ _ _).0 c2.1 in
    let c4 = (check_iff _ _ _).0 c3.1 in
    let c5 = (check_iff _ _ _).0 c4.1 in
    let c6 = (check_iff _ _ _).0 c5.1 in
    let c7 = (check_iff _ _ _).0 c6.1 in
    let c8 = (check_iff _ _ _).0 c7.1 in
    record {
      request_id = (IsRequestId-iff g.request_id).0 c1.0;
      prompt = (prompt_iff g.prompt).0 (c2.0, c3.0);
      negative_prompt = (negative_prompt_iff g.negative_prompt).0 c4.0;
      num_steps = (num_steps_iff g.num_steps).0 c5.0;
      width = (IsImageSize-iff g.width).0 c6.0;
      height = (IsImageSize-iff g.height).0 c7.0;
      seed = (IsSeed-iff g.seed).0 c8.0;
    }

-- `validateGenerationParams` reports no error exactly when the trimmed generation that it leaves has
-- an absent or well-formed request id, a prompt of 3 to 1000 bytes, a negative prompt of at most
-- 500, 1 to 50 steps, a width and a height from 512 to 2048 that 64 divides, and no negative seed.
pub validate_generation_params-IsAccepted :
    (g : ImageGeneration)
    → ((validate_generation_params g).0 ≡ none) ↔ IsAccepted (validate_generation_params g).1
unfolding validate_generation_params
validate_generation_params-IsAccepted g = (accepted (trimmed g), passes (trimmed g))
