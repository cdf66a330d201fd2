-- ===== src/Services/Redis/Numbers.antt =====
-- `std::stoll` on what `std::to_string` wrote: white space, a sign, and digits up to the first other
-- byte. A number out of the range of `long long` is refused.
use text2image.Base.{
  ℕ, zero, suc, ◌+◌, ◌*◌, ◌-◌, ◌/◌, ◌%◌, ◌<◌, ◌≤◌, ◌==◌, ltb, leb, ℤ, pos, negsuc, Bool, true,
  false, ◌&&◌, [], ◌∷◌, ◌++◌, Text, is_space, drop_while, if◌then◌else◌, ◌≡◌, refl, ◌∙◌, inl, inr,
  All, Bool-cases, arith, Result, ok, err,
}
use text2image.Services.CacheKeys.{decimal, digits}
use text2image.Services.Effects.{Exception, std_error}

abbrev is_digit : ℕ → Bool
is_digit c = leb b'0' c && leb c b'9'

-- The value of the leading digits, after those read.
unfoldable read_digits : ℕ → Text → ℕ
read_digits acc [] = acc
read_digits acc (c ∷ s) = if is_digit c then read_digits (acc * 10 + (c - b'0')) s else acc

abbrev starts_number : Text → Bool
starts_number [] = false
starts_number (c ∷ s) = is_digit c

abbrev max_int64 : ℕ
max_int64 = 9223372036854775807

abbrev bounded : ℕ → ℤ → Result Exception ℤ
bounded n z = if leb n max_int64 then ok z else err (std_error [])

abbrev negated : ℕ → ℤ
negated zero = pos 0
negated (suc n) = negsuc n

abbrev signed_number : Text → Result Exception ℤ
signed_number [] = err (std_error [])
signed_number (c ∷ s) =
    if c == b'-'
    then if starts_number s
      then if leb (read_digits 0 s) (suc max_int64)
        then ok (negated (read_digits 0 s))
        else err (std_error [])
      else err (std_error [])
    else if c == b'+'
    then if starts_number s
      then bounded (read_digits 0 s) (pos (read_digits 0 s))
      else err (std_error [])
    else if is_digit c
    then bounded (read_digits 0 (c ∷ s)) (pos (read_digits 0 (c ∷ s)))
    else err (std_error [])

-- The text of its exceptions is only logged.
unfoldable pub stoll : Text → Result Exception ℤ
unfolding read_digits drop_while
stoll s = signed_number (drop_while is_space s)

abbrev IsDigits : Text → Type 0
IsDigits = All λ c. is_digit c ≡ true

read_digits-append :
    (acc : ℕ) (s : Text) (d : ℕ)
    → IsDigits s
    → d < 10
    → read_digits acc (s ++ ((b'0' + d) ∷ [])) ≡ read_digits acc s * 10 + d
unfolding read_digits
read_digits-append acc [] d a l = ground arith
read_digits-append acc (c ∷ s) d a l =
    ground (arith, read_digits-append (acc * 10 + (c - b'0')) s d a.1 l)

append-IsDigits : (s : Text) (d : ℕ) → IsDigits s → d < 10 → IsDigits (s ++ ((b'0' + d) ∷ []))
append-IsDigits [] d a l = (ground arith, tt)
append-IsDigits (c ∷ s) d a l = (a.0, append-IsDigits s d a.1 l)

digits-IsDigits : (fuel n : ℕ) → IsDigits (digits fuel n)
unfolding digits
digits-IsDigits zero n = tt
digits-IsDigits (suc fuel) n = elim (Bool-cases (ltb n 10)) [
  | inl e ↦ rw e ((ground arith, tt))
  | inr e ↦ rw e (
      append-IsDigits (digits fuel (n / 10)) (n % 10) (digits-IsDigits fuel (n / 10)) (omega arith))
]

read_digits-digits : (fuel n : ℕ) → n < fuel → read_digits 0 (digits fuel n) ≡ n
unfolding digits read_digits
read_digits-digits zero n l = omega arith
read_digits-digits (suc fuel) n l = elim (Bool-cases (ltb n 10)) [
  | inl e ↦ rw e (ground arith)
  | inr e ↦
      rw
        (
          e,
          read_digits-append 0 (digits fuel (n / 10)) (n % 10) (digits-IsDigits fuel (n / 10))
              (omega arith),
          read_digits-digits fuel (n / 10) (ground arith),
        )
        (omega arith)
]

starts_number-append :
    (s : Text) (c : ℕ) → is_digit c ≡ true → IsDigits s → starts_number (s ++ c ∷ []) ≡ true
starts_number-append [] c e a = e
starts_number-append (d ∷ s) c e a = a.0

starts_number-digits : (fuel n : ℕ) → starts_number (digits (suc fuel) n) ≡ true
unfolding digits
starts_number-digits fuel n = elim (Bool-cases (ltb n 10)) [
  | inl e ↦ rw e (ground arith)
  | inr e ↦
      rw e (
        starts_number-append (digits fuel (n / 10)) _ (ground arith)
          (digits-IsDigits fuel (n / 10)))
]

stoll_number :
    (t : Text)
    → starts_number t ≡ true
    → read_digits 0 t ≤ max_int64
    → stoll t ≡ ok (pos (read_digits 0 t))
unfolding stoll drop_while
stoll_number [] e l = ground arith
stoll_number (c ∷ s) e l = ground arith

stoll_negative :
    (t : Text)
    → starts_number t ≡ true
    → read_digits 0 t ≤ suc max_int64
    → stoll (b'-' ∷ t) ≡ ok (negated (read_digits 0 t))
unfolding stoll drop_while
stoll_negative t e l = ground arith

-- A 64-bit integer.
abbrev pub IsInt64 : ℤ → Type 0
IsInt64 (pos n) = n ≤ max_int64
IsInt64 (negsuc n) = n ≤ max_int64

-- An `int64_t` that is written as text is read back.
pub stoll-decimal : (z : ℤ) → IsInt64 z → stoll (decimal z) ≡ ok z
unfolding decimal
stoll-decimal (pos n) l =
    let e = read_digits-digits (suc n) n (omega arith) in
    stoll_number (digits (suc n) n) (starts_number-digits n n) (rw e l) ∙ rw e refl
stoll-decimal (negsuc n) l =
    let e = read_digits-digits (suc (suc n)) (suc n) (omega arith) in
    stoll_negative (digits (suc (suc n)) (suc n)) (starts_number-digits (suc n) (suc n))
      (rw e (omega arith))
    ∙ rw e refl
