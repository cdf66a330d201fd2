-- ===== src/Database/ImageRepo/Lifecycle/Methods.antt =====
-- Each method of Backend/src/database/ImageRepo.cpp follows the edges of the life cycle.
use text2image.Base.{ℕ, ◌/◌, ap, ◌==◌, ℤ, ◌≡◌, refl, sym, Bool, true, List, Text, ◌>>=◌, ◌>>◌, pure}
use mathlib.Core.Path.{subst}
use text2image.Utils.Chrono.{ticks_per_second}
use text2image.Models.TaskStatus.{queued}
use text2image.Models.ImageGeneration.{ImageGeneration}
use text2image.Errors.Repo.{repo_invoke}
use text2image.Database.Table.{
  Row, Table, is_finished, update_where, expired_for_requeue, expired_for_timeout,
}
use text2image.Database.Table.Laws.{Distinct}
use text2image.Database.Session.{Database, execute, query}
use text2image.Database.Session.Quiet.{
  Undisturbed, execute-Triple, bind-Triple, current_time-Triple, query-Triple, update-Triple,
}
use text2image.Database.ImageRepo.{ensure_table, fetch_one, find_page}
use text2image.Database.ImageRepo.Claims.{
  claim_next_task, claim_task_by_id, renew_lease, finish_claimed_task,
  defer_claimed_task_for_model_health,
}
use text2image.Database.ImageRepo.Leases.{
  requeue_row, timeout_row, expire_leases_unsafe, expire_leases_returning_expired, expire_leases,
}
use text2image.Database.ImageRepo.Owner.{
  insert, cancel_by_id_and_user_id, retry_by_id_and_user_id, delete_by_id_and_user_id,
}
use text2image.Database.ImageRepo.Lifecycle.Rows.{Lives, Lives-update, Lives-update_twice}
use text2image.Database.ImageRepo.Lifecycle.Setters.{
  requeue-Follows, claim_id-Follows, finish-Follows, defer-Follows, cancel-Follows, retry-Follows,
  renew-Follows, requeue_timeout-Follows, claim_oldest-Lives, insert-Lives_from, insert-Undisturbed,
  delete-Lives_from,
}
use text2image.Database.ImageRepo.Lifecycle.Triples.{
  fetch_one-Triple, Start, start, same, Writer, body-Lives, update_then, read, readback, with_time,
  choice, inserted_id-Triple, or_too_long-Triple, write_then, reads_only, ask, last, checked,
  finish_page,
}

module _ (t₀ : Table) where
  abbrev Requeued : ℕ → Table → Type 0
  Requeued now t =
      t ≡ record t₀ { rows = update_where (expired_for_requeue now) requeue_row t₀.rows }

  requeued : (now : ℕ) (t : Table) → Requeued now t → Lives t₀ t
  requeued now t e =
      subst (Lives t₀) (sym e)
        (Lives-update (expired_for_requeue now) requeue_row (λ r. refl) (requeue-Follows now) t₀)

  unsafe-Writer : Writer t₀ expire_leases_unsafe
  unfolding expire_leases_unsafe
  unsafe-Writer =
      bind-Triple (Lives t₀) (Start t₀) (Start t₀) (Lives t₀)
        (current_time-Triple (Lives t₀) (Start t₀))
        λ now.
          bind-Triple (Lives t₀) (Start t₀) (Requeued (now / ticks_per_second)) (Lives t₀)
            (update-Triple (Lives t₀) (Start t₀) (Requeued (now / ticks_per_second)) _ _ _
              (start t₀)
              (λ t e.
                ap
                  (λ (u : Table). record u {
                    rows =
                        update_where (expired_for_requeue (now / ticks_per_second)) requeue_row
                          u.rows;
                  })
                  e))
            λ n.
              bind-Triple (Lives t₀) (Requeued (now / ticks_per_second)) (Lives t₀) (Lives t₀)
                (update-Triple (Lives t₀) (Requeued (now / ticks_per_second)) (Lives t₀) _ _ _
                  (requeued (now / ticks_per_second))
                  (λ t e.
                    subst
                      (λ (u : Table). Lives t₀ (record u {
                        rows =
                            update_where (expired_for_timeout (now / ticks_per_second))
                              (timeout_row (now / ticks_per_second)) u.rows;
                      }))
                      (sym e)
                      (Lives-update_twice _ _ requeue_row (timeout_row (now / ticks_per_second))
                        (λ r. refl) (λ r. refl) (requeue_timeout-Follows (now / ticks_per_second))
                        t₀)))
                λ m. read t₀ _

module _ (db : Database) (u : Undisturbed db) where
  pub claim_id-Lives :
      (id : ℤ) (worker : Text) (lease : ℤ)
      → Lives db.table (claim_task_by_id id worker lease db).1.table
  unfolding claim_task_by_id
  claim_id-Lives id worker lease =
      body-Lives db.table _
        (with_time db.table _ λ now.
          update_then db.table _ _ _ (λ r. refl) (claim_id-Follows id worker _ _)
            λ n. choice db.table (n == 0) (read db.table _) (readback db.table _))
        db u refl

  pub claim_next-Lives :
      (worker : Text) (lease : ℤ)
      → Distinct db.table.rows
      → Lives db.table (claim_next_task worker lease db).1.table
  unfolding claim_next_task
  claim_next-Lives worker lease d =
      body-Lives db.table _
        (with_time db.table _ λ now.
          write_then db.table _ (λ c v. v) (claim_oldest-Lives worker _ _ db.table d)
            λ n. choice db.table (n == 0) (read db.table _) (readback db.table _))
        db u refl

  pub renew-Lives :
      (id user : ℤ) (worker : Text) (lease : ℤ)
      → Lives db.table (renew_lease id user worker lease db).1.table
  unfolding renew_lease
  renew-Lives id user worker lease =
      body-Lives db.table _
        (with_time db.table _ λ now.
          update_then db.table _ _ _ (λ r. refl) (renew-Follows id user worker _)
            λ n. read db.table _)
        db u refl

  pub finish-Lives :
      (g : ImageGeneration)
      → is_finished g.status ≡ true
      → Lives db.table (finish_claimed_task g db).1.table
  unfolding finish_claimed_task
  finish-Lives g f =
      body-Lives db.table _
        (update_then db.table _ _ _ (λ r. refl) (finish-Follows g f) λ n. read db.table _) db u refl

  pub defer-Lives :
      (id user : ℤ) (worker code message : Text)
      → Lives db.table (defer_claimed_task_for_model_health id user worker code message db).1.table
  unfolding defer_claimed_task_for_model_health
  defer-Lives id user worker code message =
      body-Lives db.table _
        (update_then db.table _ _ _ (λ r. refl) (defer-Follows id user worker code message)
          λ n. read db.table _)
        db u refl

  pub expire-Lives : Lives db.table (expire_leases db).1.table
  unfolding expire_leases
  expire-Lives = body-Lives db.table _ (unsafe-Writer db.table) db u refl

  pub expire_returning-Lives : Lives db.table (expire_leases_returning_expired db).1.table
  unfolding expire_leases_returning_expired
  expire_returning-Lives =
      body-Lives db.table _
        (with_time db.table _ λ now. ask db.table _ λ a. ask db.table _ λ b.
          bind-Triple (Lives db.table) (Start db.table) (Lives db.table) (Lives db.table)
            (unsafe-Writer db.table) λ n. read db.table _)
        db u refl

  pub insert-Lives :
      (g : ImageGeneration) → g.status ≡ queued → Lives db.table (insert g db).1.table
  unfolding insert
  insert-Lives g q =
      body-Lives db.table _
        (with_time db.table _ λ now.
          write_then db.table _ (insert-Undisturbed g _) (insert-Lives_from g _ db.table q)
            λ fitted.
              bind-Triple (Lives db.table) (Lives db.table) (Lives db.table) (Lives db.table)
                (or_too_long-Triple db.table fitted)
                λ a.
                  bind-Triple (Lives db.table) (Lives db.table) (Lives db.table) (Lives db.table)
                    (execute-Triple (Lives db.table) (Lives db.table) (Lives db.table) _
                      (same db.table) (λ c v l. (v, l)))
                    (inserted_id-Triple db.table))
        db u refl

  pub cancel-Lives :
      (vanished : ℤ → ℤ → Text) (id user : ℤ)
      → Lives db.table (cancel_by_id_and_user_id vanished id user db).1.table
  unfolding cancel_by_id_and_user_id
  cancel-Lives vanished id user =
      body-Lives db.table _
        (with_time db.table _ λ now.
          update_then db.table _ _ _ (λ r. refl) (cancel-Follows id user _)
            λ n. choice db.table (n == 0) (read db.table _) (checked db.table _ _))
        db u refl

  pub retry-Lives :
      (vanished : ℤ → ℤ → Text) (id user : ℤ)
      → Lives db.table (retry_by_id_and_user_id vanished id user db).1.table
  unfolding retry_by_id_and_user_id
  retry-Lives vanished id user =
      body-Lives db.table _
        (update_then db.table _ _ _ (λ r. refl) (retry-Follows id user)
          λ n. choice db.table (n == 0) (read db.table _) (checked db.table _ _))
        db u refl

  pub delete-Lives :
      (id user : ℤ)
      → Distinct db.table.rows
      → Lives db.table (delete_by_id_and_user_id id user db).1.table
  unfolding delete_by_id_and_user_id
  delete-Lives id user d =
      body-Lives db.table _
        (write_then db.table _ (λ c v. v) (delete-Lives_from id user db.table d)
          λ n. read db.table _)
        db u refl

  pub page-Lives :
      (p : Row → Bool) (page size : ℤ)
      → Lives db.table (repo_invoke (find_page p page size) db).1.table
  unfolding find_page
  page-Lives p page size =
      body-Lives db.table _
        (ask db.table _ λ found. with_time db.table _ λ now. finish_page db.table _ p _ _) db u refl

  pub fetch-Lives :
      (p : Row → Bool) → Lives db.table (repo_invoke (ensure_table >> fetch_one p) db).1.table
  fetch-Lives p =
      body-Lives db.table _
        (reads_only db.table
          (fetch_one-Triple (Lives db.table) (Start db.table) (start db.table) p))
        db u refl

  pub query-Lives :
      {A B : Type 0} (f : List Row → A) (g : A → B)
      → Lives db.table
          (repo_invoke (ensure_table >> (execute (query f) >>= λ a. pure (g a))) db).1.table
  query-Lives f g = body-Lives db.table _ (ask db.table _ λ a. last db.table (g a)) db u refl

  pub count-Lives :
      {A : Type 0} (f : List Row → A)
      → Lives db.table (repo_invoke (ensure_table >> execute (query f)) db).1.table
  count-Lives f =
      body-Lives db.table _
        (reads_only db.table (query-Triple (Lives db.table) (Start db.table) f (start db.table))) db
        u refl
