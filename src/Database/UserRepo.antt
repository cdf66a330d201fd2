-- ===== src/Database/UserRepo.antt =====
-- Backend/src/database/UserRepo.cpp over the table `users` of init-db/01-schema.sql. Each method is
-- one statement; before it other sessions write, and it may fail.
pub mod Laws
mod Tests
use text2image.Base.{
  ℕ, suc, ltb, ℤ, pos, eqb_ℤ, Bool, true, false, not, ◌&&◌, ◌||◌, Option, none, some, List, [], ◌∷◌,
  ◌++◌, find?, keep, map, length, Text, bytes, eqb, if◌then◌else◌, Result, ok, err, Action, ◌>>=◌,
  pure,
}
use text2image.Errors.Repo.{Thrown, mysqlx_error, RepoError, repo_invoke}
use text2image.Database.Table.{characters, fits_varchar}
use text2image.Models.User.{User, default_user}

pub record UserRow : Type 0 where
  pub id : ℤ
  pub username : Text
  pub email : Text
  pub password : Text
  pub nickname : Text
  pub role : Text
  pub enabled : Bool

pub record UserTable : Type 0 where
  pub rows : List UserRow
  pub next_id : ℕ

pub record UserEvent : Type 0 where
  pub write : UserTable → UserTable
  pub fault : Option Thrown

pub record UserDatabase : Type 0 where
  pub table : UserTable
  pub events : List UserEvent

-- The collation of the table, and the server's message on a duplicate of a unique key.
pub record UserServer : Type 0 where
  pub same_text : Text → Text → Bool
  pub duplicate_message : User → Text

abbrev pub run_statement :
    {A : Type 0}
    → Option Thrown
    → (UserTable → Result Thrown A × UserTable)
    → UserDatabase
    → Result Thrown A × UserDatabase
run_statement (some e) statement db = (err e, db)
run_statement none statement db = let (a, t) = statement db.table in (a, record db { table = t })

-- `.execute()`; a schedule that has run out is quiet.
unfoldable pub execute_on_users :
    {A : Type 0} → (UserTable → Result Thrown A × UserTable) → Action UserDatabase Thrown A
execute_on_users statement db = elim db.events [
  | [] ↦ run_statement none statement db
  | e ∷ es ↦ run_statement e.fault statement (record { table = e.write db.table; events = es })
]

-- The column `enabled` is not selected: the user keeps the default.
abbrev pub row_to_user : UserRow → User
row_to_user r = record default_user {
  id = r.id;
  username = r.username;
  email = r.email;
  password = r.password;
  nickname = r.nickname;
  role = r.role;
}

abbrev pub user_of : Option UserRow → Option User
user_of none = none
user_of (some row) = some (row_to_user row)

abbrev pub is_found : Option UserRow → Bool
is_found none = false
is_found (some row) = true

-- The first row that `select(...).where(...)` gives.
abbrev pub fetch_user : (UserRow → Bool) → Action UserDatabase Thrown (Option UserRow)
fetch_user p = execute_on_users (λ t. (ok (find? p t.rows), t))

abbrev pub has_id : ℤ → UserRow → Bool
has_id id r = eqb_ℤ r.id id

unfoldable pub find_user_by_id : ℤ → Action UserDatabase RepoError (Option User)
unfolding repo_invoke execute_on_users
find_user_by_id id = repo_invoke (do row ← fetch_user (has_id id); pure (user_of row))

abbrev pub is_with_password : ℤ → Text → UserRow → Bool
is_with_password id hash r = has_id id r && not (eqb r.password hash)

-- A row counts as affected if its password changes.
unfoldable pub update_password_of : ℤ → Text → Action UserDatabase RepoError Bool
unfolding repo_invoke execute_on_users
update_password_of id hash = repo_invoke (do
  affected ← execute_on_users (λ t. (
    ok (length (keep (is_with_password id hash) t.rows)),
    record t { rows = map (λ r. if has_id id r then record r { password = hash } else r) t.rows },
  ))
  pure (ltb 0 affected))

-- The columns' widths, in strict mode.
unfoldable pub fits_users_columns : User → Bool
unfolding characters
fits_users_columns user =
    fits_varchar 64 user.username
    && fits_varchar 255 user.email
    && fits_varchar 255 user.password
    && fits_varchar 128 user.nickname
    && fits_varchar 32 user.role

module _ (server : UserServer) where
  abbrev pub has_username : Text → UserRow → Bool
  has_username username r = server.same_text r.username username

  abbrev pub has_email : Text → UserRow → Bool
  has_email email r = server.same_text r.email email

  unfoldable pub find_user_by_username : Text → Action UserDatabase RepoError (Option User)
  unfolding repo_invoke execute_on_users
  find_user_by_username username =
      repo_invoke (do row ← fetch_user (has_username username); pure (user_of row))

  unfoldable pub find_user_by_email : Text → Action UserDatabase RepoError (Option User)
  unfolding repo_invoke execute_on_users
  find_user_by_email email = repo_invoke (do row ← fetch_user (has_email email); pure (user_of row))

  unfoldable pub username_is_stored : Text → Action UserDatabase RepoError Bool
  unfolding repo_invoke execute_on_users
  username_is_stored username =
      repo_invoke (do row ← fetch_user (has_username username); pure (is_found row))

  unfoldable pub email_is_stored : Text → Action UserDatabase RepoError Bool
  unfolding repo_invoke execute_on_users
  email_is_stored email = repo_invoke (do row ← fetch_user (has_email email); pure (is_found row))

  -- The unique keys on `username` and `email`.
  abbrev pub is_duplicate : User → UserRow → Bool
  is_duplicate user r = has_username user.username r || has_email user.email r

  -- `enabled` takes the column's default.
  abbrev pub new_row : ℕ → User → UserRow
  new_row id user = record {
    id = pos id;
    username = user.username;
    email = user.email;
    password = user.password;
    nickname = user.nickname;
    role = user.role;
    enabled = true;
  }

  -- A duplicate has used up its number.
  abbrev pub insert_or_refuse : User → UserTable → Option UserRow → Result Thrown ℤ × UserTable
  insert_or_refuse user t none = (
    ok (pos t.next_id),
    record { rows = t.rows ++ new_row t.next_id user ∷ []; next_id = suc t.next_id },
  )
  insert_or_refuse user t (some row) =
      (err (mysqlx_error (server.duplicate_message user)), record t { next_id = suc t.next_id })

  -- A text that its column cannot hold refuses the row before the keys are looked up; the server's
  -- message names the column.
  abbrev pub insert_if_fits : Bool → User → UserTable → Result Thrown ℤ × UserTable
  insert_if_fits false user t = (err (mysqlx_error (bytes "Data too long for column")), t)
  insert_if_fits true user t = insert_or_refuse user t (find? (is_duplicate user) t.rows)

  unfoldable pub insert_new_user : User → Action UserDatabase RepoError ℤ
  unfolding repo_invoke execute_on_users fits_users_columns
  insert_new_user user =
      repo_invoke (execute_on_users (λ t. insert_if_fits (fits_users_columns user) user t))
