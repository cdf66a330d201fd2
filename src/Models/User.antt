-- ===== src/Models/User.antt =====
-- Backend/src/models/user.cpp and Backend/include/models/user.h. The times of a user are not
-- modelled: the code only stores and shows them.
use text2image.Base.{
  ℕ, ltb, leb, ◌==◌, ℤ, pos, Bool, true, false, not, ◌&&◌, ◌||◌, Option, none, some, [], ◌∷◌, Text,
  bytes, is_empty, is_alnum, is_upper, length, all, if◌then◌else◌, Result, ok, err,
}
use mathlib.Core.List.{reverse}
use text2image.Services.Effects.{Exception}

pub record User : Type 0 where
  pub id : ℤ
  pub username : Text
  pub password : Text
  pub email : Text
  pub nickname : Text
  pub role : Text
  pub enabled : Bool

abbrev pub default_user : User
default_user = record {
  id = pos 0;
  username = [];
  password = [];
  email = [];
  nickname = [];
  role = bytes "user";
  enabled = true;
}

-- A JSON document by its members: `contains(key)`, then `get`, which throws on another kind; and
-- `value(key, "")`, which throws on another kind and on a document that is no object.
pub record JsonBody : Type 0 where
  pub text_member : Text → Option (Result Exception Text)
  pub integer_member : Text → Option (Result Exception ℤ)
  pub bool_member : Text → Option (Result Exception Bool)
  pub value_or_empty : Text → Result Exception Text

-- `if (j.contains(key)) field = j[key].get<T>();`
abbrev member_or : {A : Type 0} → Option (Result Exception A) → A → Result Exception A
member_or none old = ok old
member_or (some read) old = read

abbrev read_next :
    {A B : Type 0} → Result Exception A → (A → Result Exception B) → Result Exception B
read_next (ok a) f = f a
read_next (err e) f = err e

unfoldable pub user_from_json : JsonBody → Result Exception User
user_from_json j = read_next (member_or (j.integer_member (bytes "id")) (pos 0)) λ id.
    read_next (member_or (j.text_member (bytes "username")) []) λ username.
      read_next (member_or (j.text_member (bytes "password")) []) λ password.
        read_next (member_or (j.text_member (bytes "email")) []) λ email.
          read_next (member_or (j.text_member (bytes "nickname")) []) λ nickname.
            read_next (member_or (j.text_member (bytes "role")) (bytes "user")) λ role.
              read_next (member_or (j.bool_member (bytes "enabled")) true) λ enabled. ok (record {
                id = id;
                username = username;
                password = password;
                email = email;
                nickname = nickname;
                role = role;
                enabled = enabled;
              })

-- The parts before and behind the first such byte.
abbrev pub split_first : ℕ → Text → Option (Text × Text)
split_first c [] = none
split_first c (d ∷ s) =
    let rest = split_first c s in
    if d == c then some ([], s) else elim rest [ none ↦ none | some p ↦ some (d ∷ p.0, p.1) ]

-- `[a-zA-Z]`, `[a-zA-Z0-9._%+-]` and `[a-zA-Z0-9.-]`
abbrev is_letter : ℕ → Bool
is_letter c = is_upper c || (leb b'a' c && leb c b'z')

abbrev is_local_char : ℕ → Bool
is_local_char c = is_alnum c || c == b'.' || c == b'_' || c == b'%' || c == b'+' || c == b'-'

abbrev is_domain_char : ℕ → Bool
is_domain_char c = is_alnum c || c == b'.' || c == b'-'

-- `[a-zA-Z0-9.-]+\.[a-zA-Z]{2,}`: the last dot ends the first part, since no letter is a dot.
abbrev is_domain : Text → Bool
is_domain s = elim (split_first b'.' (reverse s)) [
  | none ↦ false
  | some p ↦ leb 2 (length p.0) && all is_letter p.0 && not (is_empty p.1) && all is_domain_char p.1
]

-- A match of the whole text: the first `@` ends the first part, since no other part has one.
unfoldable pub is_email : Text → Bool
is_email s = elim (split_first b'@' s) [
  | none ↦ false
  | some p ↦ not (is_empty p.0) && all is_local_char p.0 && is_domain p.1
]

unfoldable pub validate : User → Bool
unfolding is_email
validate user =
    if ltb (length user.username) 3 || ltb 20 (length user.username)
    then false
    else if ltb (length user.password) 6
    then false
    else is_email user.email
