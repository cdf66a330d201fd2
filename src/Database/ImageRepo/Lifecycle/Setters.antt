-- ===== src/Database/ImageRepo/Lifecycle/Setters.antt =====
-- The statements of Backend/src/database/ImageRepo.cpp follow the edges of the life cycle.
use text2image.Database.Session.Quiet.{Undisturbed}
use text2image.Base.{
  Bool, true, false, ℕ, suc, ℤ, ◌≡◌, refl, sym, true, some, Text, arith, inl, inr, Bool-cases,
}
use mathlib.Core.Path.{subst}
use text2image.Utils.Chrono.{Time}
use text2image.Models.TaskStatus.{queued}
use text2image.Models.ImageGeneration.{ImageGeneration}
use text2image.Database.Table.{
  Row, Table, is_finished, claimable, expired_for_requeue, expired_for_timeout, held_by,
}
use text2image.Database.Table.Laws.{Distinct, set_if, find_row}
use text2image.Database.Session.{Database}
use text2image.Database.ImageRepo.Claims.{
  claim_row, claim_oldest, is_oldest_claimable, renew_row, finish_row, defer_row, is_waiting_task,
}
use text2image.Database.ImageRepo.Leases.{requeue_row, timeout_row}
use text2image.Database.ImageRepo.Owner.{
  inserted_row, insert_statement, insert_if, fits_columns, cancel_row, is_cancellable, retry_row,
  is_retryable_row, delete_statement, is_deletable,
}
use text2image.Database.ImageRepo.Lifecycle.Oldest.{oldest_claimable, find_row-id}
use text2image.Database.ImageRepo.Lifecycle.Rows.{
  Lives-self, Follows, Follows-self, Lives, Lives-update_found, Lives-append, Lives-delete,
}

-- The rows that the UPDATEs set follow the edges.
pub requeue-Follows :
    (now : ℕ) (r : Row) → Follows r (set_if (expired_for_requeue now) requeue_row r)
requeue-Follows now r = ground arith

pub timeout-Follows :
    (now : ℕ) (r : Row) → Follows r (set_if (expired_for_timeout now) (timeout_row now) r)
timeout-Follows now r = ground arith

pub claim_id-Follows :
    (id : ℤ) (worker : Text) (now expires : ℕ) (r : Row)
    → Follows r (set_if (is_waiting_task id) (claim_row worker now expires) r)
claim_id-Follows id worker now expires r = ground arith

pub finish-Follows :
    (g : ImageGeneration)
    → is_finished g.status ≡ true
    → (r : Row) → Follows r (set_if (held_by g.id g.user_id g.worker_id) (finish_row g) r)
finish-Follows g f r = ground arith

pub defer-Follows :
    (id user : ℤ) (worker code message : Text) (r : Row)
    → Follows r (set_if (held_by id user worker) (defer_row code message) r)
defer-Follows id user worker code message r = ground arith

pub cancel-Follows :
    (id user : ℤ) (now : ℕ) (r : Row)
    → Follows r (set_if (is_cancellable id user) (cancel_row now) r)
cancel-Follows id user now r = ground arith

pub retry-Follows :
    (id user : ℤ) (r : Row) → Follows r (set_if (is_retryable_row id user) retry_row r)
retry-Follows id user r = ground arith

pub renew-Follows :
    (id user : ℤ) (worker : Text) (expires : ℕ) (r : Row)
    → Follows r (set_if (held_by id user worker) (renew_row expires) r)
renew-Follows id user worker expires r = ground arith

-- The scanner's two UPDATEs.
pub requeue_timeout-Follows :
    (now : ℕ) (r : Row)
    → Follows r (
        set_if
          (expired_for_timeout now)
          (timeout_row now)
          (set_if (expired_for_requeue now) requeue_row r))
requeue_timeout-Follows now r = ground arith

pub claim_found-Follows :
    (worker : Text) (now expires : ℕ) (t : Table)
    → Distinct t.rows
    → (id : ℤ) (r : Row) → find_row id t.rows ≡ some r
    → Follows r (set_if (is_oldest_claimable now t.rows) (claim_row worker now expires) r)
claim_found-Follows worker now expires t d id r e =
    elim (Bool-cases (is_oldest_claimable now t.rows r)) [
      | inl hit ↦ rw hit (taken (oldest_claimable now t.rows r d (find_row-id id t.rows r e) hit))
      | inr miss ↦ rw miss (Follows-self r)
    ]
  where
    taken : claimable now r ≡ true → Follows r (claim_row worker now expires r)
    taken c = ground arith

pub claim_oldest-Lives :
    (worker : Text) (now expires : ℕ) (t₀ : Table)
    → Distinct t₀.rows
    → (db : Database) → db.table ≡ t₀
    → Lives t₀ (claim_oldest worker now expires db).1.table
claim_oldest-Lives worker now expires t₀ d db e =
    subst (λ t. Lives t (claim_oldest worker now expires db).1.table) e
      (Lives-update_found (is_oldest_claimable now db.table.rows) (claim_row worker now expires)
        (λ r. refl) db.table
        (claim_found-Follows worker now expires db.table
          (subst (λ (t : Table). Distinct t.rows) (sym e) d)))

pub insert-Undisturbed :
    (g : ImageGeneration) (created_at : Time) (db : Database)
    → Undisturbed db
    → Undisturbed (insert_statement g created_at db).1
insert-Undisturbed g created_at db u = calm (fits_columns g)
  where
    calm : (fits : Bool) → Undisturbed (insert_if fits g created_at db).1
    calm true = u
    calm false = u

pub insert-Lives_from :
    (g : ImageGeneration) (created_at : Time) (t₀ : Table)
    → g.status ≡ queued
    → (db : Database) → db.table ≡ t₀
    → Lives t₀ (insert_statement g created_at db).1.table
insert-Lives_from g created_at t₀ q db e =
    subst (λ t. Lives t (insert_statement g created_at db).1.table) e (from (fits_columns g))
  where
    from : (fits : Bool) → Lives db.table (insert_if fits g created_at db).1.table
    from true =
        Lives-append db.table (inserted_row db.table.next_id created_at g) (suc db.table.next_id) q
    from false = Lives-self db.table

pub delete-Lives_from :
    (id user : ℤ) (t₀ : Table)
    → Distinct t₀.rows
    → (db : Database) → db.table ≡ t₀
    → Lives t₀ (delete_statement (is_deletable id user) db).1.table
delete-Lives_from id user t₀ d db e =
    subst (λ t. Lives t (delete_statement (is_deletable id user) db).1.table) e
      (Lives-delete (is_deletable id user) (λ r h. ground arith) db.table
        (subst (λ (t : Table). Distinct t.rows) (sym e) d))
