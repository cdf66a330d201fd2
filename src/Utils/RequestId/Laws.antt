-- ===== src/Utils/RequestId/Laws.antt =====
-- What a sanitised request id can hold.
use text2image.Base.{
  ℕ, ltb, ◌≤◌, ◌≡◌, ◌⊎◌, inl, inr, Bool-cases, true, ◌&&◌, ◌||◌, [], ◌∷◌, All, all, length, Text,
  is_empty, trim, arith,
}
use text2image.Utils.RequestId.{
  max_length, is_allowed_char, is_blank, checked_id, sanitize_request_id,
}

-- A digit, a letter of ASCII, `.`, `_`, `:` or `-`, by its number.
abbrev pub IsPrintable : ℕ → Type 0
IsPrintable c =
    ((48 ≤ c) × (c ≤ 57))
    ⊎ (((65 ≤ c) × (c ≤ 90))
        ⊎ (((97 ≤ c) × (c ≤ 122)) ⊎ ((c ≡ 46) ⊎ ((c ≡ 95) ⊎ ((c ≡ 58) ⊎ (c ≡ 45))))))

allowed-IsPrintable : (c : ℕ) → is_allowed_char c ≡ true → IsPrintable c
allowed-IsPrintable c h = ground arith

all-IsPrintable : (s : Text) → all is_allowed_char s ≡ true → All IsPrintable s
all-IsPrintable [] h = tt
all-IsPrintable (c ∷ s) h =
    let parts = both h in (allowed-IsPrintable c parts.0, all-IsPrintable s parts.1)
  where
    both :
        is_allowed_char c && all is_allowed_char s ≡ true
        → (is_allowed_char c ≡ true) × (all is_allowed_char s ≡ true)
    both e = ground arith

checked_id-IsPrintable : (s : Text) → All IsPrintable (checked_id s) × (length (checked_id s) ≤ 128)
unfolding checked_id
checked_id-IsPrintable s = elim (Bool-cases (is_empty s || ltb max_length (length s))) [
  | inl e ↦ rw e (tt, omega arith)
  | inr e ↦ elim (Bool-cases (all is_allowed_char s)) [
    | inl a ↦ rw (e, a) (all-IsPrintable s a, ground arith)
    | inr n ↦ rw (e, n) (tt, omega arith)
  ]
]

-- Whatever bytes a request id has, what is left of it has at most 128 bytes, each of them an ASCII
-- letter, a digit, `.`, `_`, `:` or `-`.
pub sanitize_request_id-IsPrintable :
    (raw : Text)
    → All IsPrintable (sanitize_request_id raw) × (length (sanitize_request_id raw) ≤ 128)
unfolding sanitize_request_id
sanitize_request_id-IsPrintable raw = checked_id-IsPrintable (trim is_blank raw)
