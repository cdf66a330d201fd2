-- ===== src/Database/ImageRepo/Safety/Methods.antt =====
-- Each method of Backend/src/database/ImageRepo.cpp keeps the table valid.
use text2image.Base.{
  ℕ, ◌==◌, ℤ, ◌≡◌, refl, Bool, true, false, Option, none, some, Text, if◌then◌else◌, ◌>>=◌, ◌>>◌,
}
use text2image.Utils.Chrono.{Time}
use text2image.Models.TaskStatus.{TaskStatus}
use text2image.Models.ImageGeneration.{ImageGeneration}
use text2image.Errors.Repo.{repo_invoke}
use text2image.Database.Table.{Row, is_generating}
use text2image.Database.Session.{Database, Sql, execute, update_statement}
use text2image.Database.Session.Keeps.{
  IsGood, Keeps, execute-Keeps, bind-Keeps, pure-Keeps, fail-Keeps, current_time-Keeps, query-Keeps,
  update-Keeps, repo_invoke-Keeps, choice-Keeps,
}
use text2image.Database.Invariant.{IsHeld, IsValid, update-IsValid, delete-IsValid, append-IsValid}
use text2image.Database.ImageRepo.{
  ensure_table, fetch_one, find_page, find_by_id_and_user_id, find_by_request_id_and_user_id,
  count_active_tasks_by_user_id, find_queued_task_ids,
}
use text2image.Database.ImageRepo.Claims.{
  claim_row, claim_oldest, is_oldest_claimable, claim_next_task, claim_task_by_id, renew_lease,
  finish_claimed_task, defer_claimed_task_for_model_health,
}
use text2image.Database.ImageRepo.Leases.{
  expire_leases_unsafe, expire_leases_returning_expired, expire_leases,
}
use text2image.Database.ImageRepo.Owner.{
  insert, inserted_id, inserted_row, insert_statement, insert_if, fits_columns, or_too_long,
  cancel_by_id_and_user_id, or_vanished, retry_by_id_and_user_id, delete_by_id_and_user_id,
  update_status_and_error,
}

choice-IsGood :
    {A : Type 0} (b : Bool) (x y : A × Database)
    → IsGood IsValid x.1
    → IsGood IsValid y.1
    → IsGood IsValid (if b then x else y).1
choice-IsGood true x y g h = g
choice-IsGood false x y g h = h

pub ensure_table-Keeps : Keeps IsValid ensure_table
unfolding ensure_table
ensure_table-Keeps = record {
  keeps = λ db g. choice-IsGood db.table_ready _ _ g (
      (execute-Keeps IsValid (λ d. (tt, record d { table_ready = true }))
          (λ d h. record { table_good = h.table_good; events_tame = h.events_tame })).keeps
        db g);
}

pub fetch_one-Keeps : (p : Row → Bool) → Keeps IsValid (fetch_one p)
unfolding fetch_one
fetch_one-Keeps p =
    bind-Keeps IsValid (query-Keeps IsValid _)
      λ found. bind-Keeps IsValid (current_time-Keeps IsValid) λ now. pure-Keeps IsValid _

-- A body that starts by `ensureTable`.
pub body-Keeps :
    {A : Type 0} {m : Sql A} → Keeps IsValid m → Keeps IsValid (repo_invoke (ensure_table >> m))
body-Keeps k = repo_invoke-Keeps IsValid (bind-Keeps IsValid ensure_table-Keeps λ _. k)

-- An UPDATE in a body, with what follows it.
update_then :
    {A : Type 0} (changed p : Row → Bool) (f : Row → Row) {rest : ℕ → Sql A}
    → ((r : Row) → (f r).id ≡ r.id)
    → ((r : Row) → IsHeld r → IsHeld (f r))
    → ((n : ℕ) → Keeps IsValid (rest n))
    → Keeps IsValid (execute (update_statement changed p f) >>= rest)
update_then changed p f same held rest =
    bind-Keeps IsValid (update-Keeps IsValid changed p f (update-IsValid p f same held)) rest

pub claim_task_by_id-Keeps :
    (id : ℤ) (worker : Text) (lease : ℤ) → Keeps IsValid (claim_task_by_id id worker lease)
unfolding claim_task_by_id
claim_task_by_id-Keeps id worker lease = body-Keeps (
    bind-Keeps IsValid (current_time-Keeps IsValid) λ now.
      update_then _ _ _ (λ r. refl) (λ r h e. (refl, refl))
        λ n. choice-Keeps IsValid (n == 0) (pure-Keeps IsValid _) (fetch_one-Keeps _))

claim_oldest-IsGood :
    (worker : Text) (now expires : ℕ) (db : Database)
    → IsGood IsValid db
    → IsGood IsValid (claim_oldest worker now expires db).1
claim_oldest-IsGood worker now expires db g = record {
  table_good =
      update-IsValid (is_oldest_claimable now db.table.rows) (claim_row worker now expires)
        (λ r. refl) (λ r h e. (refl, refl)) db.table g.table_good;
  events_tame = g.events_tame;
}

pub claim_next_task-Keeps :
    (worker : Text) (lease : ℤ) → Keeps IsValid (claim_next_task worker lease)
unfolding claim_next_task
claim_next_task-Keeps worker lease = body-Keeps (
    bind-Keeps IsValid (current_time-Keeps IsValid) λ now.
      bind-Keeps IsValid (execute-Keeps IsValid _ (claim_oldest-IsGood worker _ _))
        λ n. choice-Keeps IsValid (n == 0) (pure-Keeps IsValid _) (fetch_one-Keeps _))

pub renew_lease-Keeps :
    (id user : ℤ) (worker : Text) (lease : ℤ) → Keeps IsValid (renew_lease id user worker lease)
unfolding renew_lease
renew_lease-Keeps id user worker lease = body-Keeps (
    bind-Keeps IsValid (current_time-Keeps IsValid)
      λ now. update_then _ _ _ (λ r. refl) (λ r h e. ((h e).0, refl)) λ n. pure-Keeps IsValid _)

pub finish_claimed_task-Keeps :
    (g : ImageGeneration) → is_generating g.status ≡ false → Keeps IsValid (finish_claimed_task g)
unfolding finish_claimed_task
finish_claimed_task-Keeps g s =
    body-Keeps (update_then _ _ _ (λ r. refl) (λ r h e. cc) λ n. pure-Keeps IsValid _)

pub defer-Keeps :
    (id user : ℤ) (worker code message : Text)
    → Keeps IsValid (defer_claimed_task_for_model_health id user worker code message)
unfolding defer_claimed_task_for_model_health
defer-Keeps id user worker code message =
    body-Keeps (update_then _ _ _ (λ r. refl) (λ r h e. cc) λ n. pure-Keeps IsValid _)

pub expire_unsafe-Keeps : Keeps IsValid expire_leases_unsafe
unfolding expire_leases_unsafe
expire_unsafe-Keeps = bind-Keeps IsValid (current_time-Keeps IsValid) λ now.
    update_then _ _ _ (λ r. refl) (λ r h e. cc)
      λ n. update_then _ _ _ (λ r. refl) (λ r h e. cc) λ m. pure-Keeps IsValid _

pub expire_returning-Keeps : Keeps IsValid expire_leases_returning_expired
unfolding expire_leases_returning_expired
expire_returning-Keeps = body-Keeps (
    bind-Keeps IsValid (current_time-Keeps IsValid) λ now.
      bind-Keeps IsValid (query-Keeps IsValid _) λ a.
        bind-Keeps IsValid (query-Keeps IsValid _)
          λ b. bind-Keeps IsValid expire_unsafe-Keeps λ n. pure-Keeps IsValid _)

pub expire_leases-Keeps : Keeps IsValid expire_leases
unfolding expire_leases
expire_leases-Keeps = body-Keeps expire_unsafe-Keeps

pub or_vanished-Keeps :
    (message : Text) (o : Option ImageGeneration) → Keeps IsValid (or_vanished message o)
or_vanished-Keeps message none = fail-Keeps IsValid _
or_vanished-Keeps message (some g) = pure-Keeps IsValid _

pub inserted_id-Keeps : (o : Option ℕ) → Keeps IsValid (inserted_id o)
inserted_id-Keeps none = fail-Keeps IsValid _
inserted_id-Keeps (some id) = pure-Keeps IsValid _

insert_statement-IsGood :
    (g : ImageGeneration) (created_at : Time)
    → is_generating g.status ≡ false
    → (db : Database) → IsGood IsValid db
    → IsGood IsValid (insert_statement g created_at db).1
insert_statement-IsGood g created_at s db good = from (fits_columns g)
  where
    from : (fits : Bool) → IsGood IsValid (insert_if fits g created_at db).1
    from true = record {
      table_good =
          append-IsValid db.table (inserted_row db.table.next_id created_at g) refl (λ e. cc)
            good.table_good;
      events_tame = good.events_tame;
    }
    from false = good

or_too_long-Keeps : (fitted : Bool) → Keeps IsValid (or_too_long fitted)
or_too_long-Keeps true = pure-Keeps IsValid _
or_too_long-Keeps false = fail-Keeps IsValid _

pub insert-Keeps : (g : ImageGeneration) → is_generating g.status ≡ false → Keeps IsValid (insert g)
unfolding insert
insert-Keeps g s = body-Keeps (
    bind-Keeps IsValid (current_time-Keeps IsValid) λ now.
      bind-Keeps IsValid (execute-Keeps IsValid _ (insert_statement-IsGood g _ s)) λ fitted.
        bind-Keeps IsValid (or_too_long-Keeps fitted)
          λ u. bind-Keeps IsValid (execute-Keeps IsValid _ (λ db h. h)) inserted_id-Keeps)

pub cancel-Keeps :
    (vanished : ℤ → ℤ → Text) (id user : ℤ)
    → Keeps IsValid (cancel_by_id_and_user_id vanished id user)
unfolding cancel_by_id_and_user_id
cancel-Keeps vanished id user = body-Keeps (
    bind-Keeps IsValid (current_time-Keeps IsValid) λ now.
      update_then _ _ _ (λ r. refl) (λ r h e. cc)
        λ n.
          choice-Keeps IsValid (n == 0) (pure-Keeps IsValid _)
            (bind-Keeps IsValid (fetch_one-Keeps _) (or_vanished-Keeps _)))

pub retry-Keeps :
    (vanished : ℤ → ℤ → Text) (id user : ℤ)
    → Keeps IsValid (retry_by_id_and_user_id vanished id user)
unfolding retry_by_id_and_user_id
retry-Keeps vanished id user = body-Keeps (
    update_then _ _ _ (λ r. refl) (λ r h e. cc)
      λ n.
        choice-Keeps IsValid (n == 0) (pure-Keeps IsValid _)
          (bind-Keeps IsValid (fetch_one-Keeps _) (or_vanished-Keeps _)))

pub delete-Keeps : (id user : ℤ) → Keeps IsValid (delete_by_id_and_user_id id user)
unfolding delete_by_id_and_user_id
delete-Keeps id user = body-Keeps (
    bind-Keeps IsValid
      (execute-Keeps IsValid _ (λ db h. record {
        table_good = delete-IsValid _ db.table h.table_good;
        events_tame = h.events_tame;
      }))
      λ n. pure-Keeps IsValid _)

pub update_status-Keeps :
    (id user : ℤ) (status : TaskStatus) (message : Text)
    → is_generating status ≡ false
    → Keeps IsValid (update_status_and_error id user status message)
unfolding update_status_and_error
update_status-Keeps id user status message s = body-Keeps (
    bind-Keeps IsValid (current_time-Keeps IsValid)
      λ now. update_then _ _ _ (λ r. refl) (λ r h e. cc) λ n. pure-Keeps IsValid _)

pub find_page-Keeps :
    (p : Row → Bool) (page size : ℤ) → Keeps IsValid (repo_invoke (find_page p page size))
unfolding find_page
find_page-Keeps p page size = body-Keeps (
    bind-Keeps IsValid (query-Keeps IsValid _) λ found.
      bind-Keeps IsValid (current_time-Keeps IsValid) λ now.
        choice-Keeps IsValid _
          (bind-Keeps IsValid (query-Keeps IsValid _) λ total. pure-Keeps IsValid _)
          (pure-Keeps IsValid _))

pub find_id-Keeps : (id user : ℤ) → Keeps IsValid (find_by_id_and_user_id id user)
unfolding find_by_id_and_user_id
find_id-Keeps id user = body-Keeps (fetch_one-Keeps _)

pub find_request-Keeps :
    (request : Text) (user : ℤ) → Keeps IsValid (find_by_request_id_and_user_id request user)
unfolding find_by_request_id_and_user_id
find_request-Keeps request user = body-Keeps (fetch_one-Keeps _)

pub count_active-Keeps : (user : ℤ) → Keeps IsValid (count_active_tasks_by_user_id user)
unfolding count_active_tasks_by_user_id
count_active-Keeps user = body-Keeps (query-Keeps IsValid _)

pub queued_ids-Keeps : Keeps IsValid find_queued_task_ids
unfolding find_queued_task_ids
queued_ids-Keeps =
    body-Keeps (bind-Keeps IsValid (query-Keeps IsValid _) λ found. pure-Keeps IsValid _)
