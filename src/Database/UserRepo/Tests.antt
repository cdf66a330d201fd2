-- ===== src/Database/UserRepo/Tests.antt =====
-- The methods on the table `users` at work.
use text2image.Base.{
  ◌≡◌, refl, pos, true, false, some, [], ◌∷◌, bytes, eqb, eqb_refl, find?, ok, err,
}
use text2image.Errors.Repo.{make_repo_error_from_mysql_message}
use text2image.Models.User.{User, default_user}
use text2image.Database.Table.{characters}
use text2image.Database.UserRepo.{
  fits_users_columns, UserRow, UserTable, UserServer, find_user_by_id, find_user_by_username,
  find_user_by_email, insert_new_user,
}
use text2image.Database.UserRepo.Laws.{
  quiet_users, IsEnabledIfFound, find_user-enabled, insert_new_user-find,
}

abbrev binary_server : UserServer
binary_server = record {
  same_text = λ x y. eqb x y;
  duplicate_message = λ u. bytes "Duplicate entry";
}

abbrev new_user : User
new_user = record default_user { username = 97 ∷ []; email = 98 ∷ []; password = 99 ∷ [] }

abbrev disabled_row : UserRow
disabled_row = record {
  id = pos 4;
  username = 100 ∷ [];
  email = 101 ∷ [];
  password = 102 ∷ [];
  nickname = [];
  role = bytes "user";
  enabled = false;
}

abbrev sample_users : UserTable
sample_users = record { rows = disabled_row ∷ []; next_id = 5 }

find_user-enabled_example :
    IsEnabledIfFound (find_user_by_id (pos 4) (quiet_users sample_users)).0
    × IsEnabledIfFound (find_user_by_username binary_server (100 ∷ []) (quiet_users sample_users)).0
    × IsEnabledIfFound (find_user_by_email binary_server (101 ∷ []) (quiet_users sample_users)).0
find_user-enabled_example =
    find_user-enabled binary_server (pos 4) (100 ∷ []) (101 ∷ []) (quiet_users sample_users)

-- The search does find the disabled row.
finds_disabled :
    (find_user_by_id (pos 4) (quiet_users sample_users)).0
    ≡ ok (
        some (record default_user {
          id = pos 4;
          username = 100 ∷ [];
          email = 101 ∷ [];
          password = 102 ∷ [];
        }))
unfolding find_user_by_id find?
finds_disabled = refl

insert_new_user-find_example :
    let inserted = insert_new_user binary_server new_user (quiet_users sample_users) in
    let stored = record new_user { id = pos 5; enabled = true } in
    (inserted.0 ≡ ok (pos 5))
    × ((find_user_by_username binary_server (97 ∷ []) inserted.1).0 ≡ ok (some stored))
    × ((find_user_by_email binary_server (98 ∷ []) inserted.1).0 ≡ ok (some stored))
    × ((insert_new_user binary_server new_user inserted.1).0
        ≡ err (make_repo_error_from_mysql_message (bytes "Duplicate entry")))
unfolding find? eqb fits_users_columns characters bytes
insert_new_user-find_example =
    insert_new_user-find binary_server eqb_refl new_user sample_users refl refl
