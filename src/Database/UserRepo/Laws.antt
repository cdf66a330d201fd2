-- ===== src/Database/UserRepo/Laws.antt =====
-- What the methods on the table `users` promise.
use text2image.Base.{
  ◌≡◌, refl, pos, ℤ, Bool, true, ◌||◌, Option, none, some, List, [], ◌∷◌, ◌++◌, find?, Text, Result,
  ok, err, Action, ◌>>=◌, pure, arith,
}
use text2image.Errors.Repo.{
  Thrown, RepoError, repo_invoke, to_repo_error, make_repo_error_from_mysql_message,
}
use text2image.Models.User.{User}
use text2image.Database.UserRepo.{
  UserRow, UserTable, UserDatabase, UserServer, execute_on_users, user_of, find_user_by_id,
  find_user_by_username, find_user_by_email, fetch_user, has_id, has_username, has_email,
  is_duplicate, fits_users_columns, new_row, insert_new_user,
}

abbrev pub quiet_users : UserTable → UserDatabase
quiet_users t = record { table = t; events = [] }

module _ {A : Type 0} where
  find?-last :
      (p : A → Bool) (xs : List A) (x : A)
      → find? p xs ≡ none
      → p x ≡ true
      → find? p (xs ++ x ∷ []) ≡ some x
  unfolding find?
  find?-last p [] x lost e = rw e refl
  find?-last p (y ∷ xs) x lost e = ground (arith, find?-last p xs x)

  find?-left :
      (p q : A → Bool) (xs : List A) → find? (λ x. p x || q x) xs ≡ none → find? p xs ≡ none
  unfolding find?
  find?-left p q [] lost = refl
  find?-left p q (x ∷ xs) lost = ground (arith, find?-left p q xs)

  find?-right :
      (p q : A → Bool) (xs : List A) → find? (λ x. p x || q x) xs ≡ none → find? q xs ≡ none
  unfolding find?
  find?-right p q [] lost = refl
  find?-right p q (x ∷ xs) lost = ground (arith, find?-right p q xs)

-- What is found, if anything, is an enabled user.
abbrev pub IsEnabledIfFound : Result RepoError (Option User) → Type 0
IsEnabledIfFound (ok (some user)) = user.enabled ≡ true
IsEnabledIfFound _ = Unit

found-IsEnabledIfFound :
    (m : Action UserDatabase Thrown (Option UserRow)) (db : UserDatabase)
    (answered : Result Thrown (Option UserRow) × UserDatabase)
    → m db ≡ answered
    → IsEnabledIfFound (repo_invoke (do row ← m; pure (user_of row)) db).0
unfolding repo_invoke
found-IsEnabledIfFound m db (ok none, t) e = rw e tt
found-IsEnabledIfFound m db (ok (some row), t) e = rw e refl
found-IsEnabledIfFound m db (err thrown, t) e = rw e tt

-- A user that `findById`, `findByUsername` or `findByEmail` returns is enabled, whatever the column
-- `enabled` of the row says.
pub find_user-enabled :
    (server : UserServer) (id : ℤ) (name email : Text) (db : UserDatabase)
    → IsEnabledIfFound (find_user_by_id id db).0
      × IsEnabledIfFound (find_user_by_username server name db).0
      × IsEnabledIfFound (find_user_by_email server email db).0
unfolding find_user_by_id find_user_by_username find_user_by_email
find_user-enabled server id name email db = (
  found-IsEnabledIfFound (fetch_user (has_id id)) db _ refl,
  found-IsEnabledIfFound (fetch_user (has_username server name)) db _ refl,
  found-IsEnabledIfFound (fetch_user (has_email server email)) db _ refl,
)

module _ (server : UserServer) (same_text_refl : (x : Text) → server.same_text x x ≡ true) where
  -- A user whose name and address are free is inserted with the table's next number; afterwards the
  -- search by the name and the search by the address find this user, enabled, and a second insertion
  -- fails with what is made of the server's message about a duplicate. The collation takes a text for
  -- equal to itself, no text is too long for its column, no other failure occurs and nobody else
  -- writes.
  pub insert_new_user-find :
      (u : User) (t : UserTable)
      → fits_users_columns u ≡ true
      → find? (is_duplicate server u) t.rows ≡ none
      → let inserted = insert_new_user server u (quiet_users t) in
        let stored = record u { id = pos t.next_id; enabled = true } in
        (inserted.0 ≡ ok (pos t.next_id))
        × ((find_user_by_username server u.username inserted.1).0 ≡ ok (some stored))
        × ((find_user_by_email server u.email inserted.1).0 ≡ ok (some stored))
        × ((insert_new_user server u inserted.1).0
            ≡ err (make_repo_error_from_mysql_message (server.duplicate_message u)))
  unfolding insert_new_user find_user_by_username find_user_by_email execute_on_users repo_invoke
      to_repo_error make_repo_error_from_mysql_message
  insert_new_user-find u t fits free =
      let name =
        find?-left (has_username server u.username) (has_email server u.email) t.rows free in
      let email =
        find?-right (has_username server u.username) (has_email server u.email) t.rows free in
      let row = new_row server t.next_id u in
      let both : is_duplicate server u row ≡ true = rw (same_text_refl u.username) refl in
      (
        rw (fits, free) refl,
        rw (fits, free, find?-last _ t.rows row name (same_text_refl u.username)) refl,
        rw (fits, free, find?-last _ t.rows row email (same_text_refl u.email)) refl,
        rw (fits, free, find?-last (is_duplicate server u) t.rows row free both) refl,
      )
