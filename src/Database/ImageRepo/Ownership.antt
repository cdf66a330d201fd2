-- ===== src/Database/ImageRepo/Ownership.antt =====
-- Who may act on a task of Backend/src/database/ImageRepo.cpp: the worker that holds it, and the user
-- that owns it. The sessions here are idle: nothing fails, and no other session writes.
use text2image.Base.{
  ◌+◌, ltb, [], ℤ, ◌≡◌, refl, Bool, true, false, ◌&&◌, none, List, All, All-map, Text, arith, ok,
}
use text2image.Utils.Chrono.{Time, seconds, floor_seconds}
use text2image.Models.TaskStatus.{TaskStatus}
use text2image.Models.ImageGeneration.{ImageGeneration}
use text2image.Database.Table.{
  Row, Table, owned, update_where, count_where, held_by, is_expired, is_active, is_finished,
  expired_for_requeue, expired_for_timeout,
}
use text2image.Database.Table.Laws.{
  update_none, count_none, select_none, delete_none, update_brings, All-any,
}
use text2image.Database.Session.{Database, execute}
use text2image.Database.ImageRepo.{find_by_id_and_user_id}
use text2image.Database.ImageRepo.Claims.{
  claim_task_by_id, claim_row, is_waiting_task, finish_claimed_task, finish_row, lease_or_default,
}
use text2image.Database.ImageRepo.Leases.{expire_leases, requeue_row, timeout_row}
use text2image.Database.ImageRepo.Owner.{
  cancel_by_id_and_user_id, cancel_row, is_cancellable, retry_by_id_and_user_id, is_retryable_row,
  delete_by_id_and_user_id,
}

-- A database with an empty schedule.
abbrev pub idle : Table → Time → Database
idle t now = record { table = t; now = now; last_insert_id = none; table_ready = true; events = [] }

abbrev pub with_rows : Table → List Row → Table
with_rows t rows = record t { rows = rows }

module _ (t : Table) (now : Time) where
  pub finish_lem :
      (g : ImageGeneration)
      → finish_claimed_task g (idle t now) ≡ (
        ok (ltb 0 (count_where (held_by g.id g.user_id g.worker_id) t.rows)),
        idle
            (with_rows t (update_where (held_by g.id g.user_id g.worker_id) (finish_row g) t.rows))
            now,
      )
  unfolding finish_claimed_task execute
  finish_lem g = refl

  -- Nobody holds the task under this worker's name: the result is refused and nothing changes.
  finish_refused :
      (g : ImageGeneration)
      → All (λ r. held_by g.id g.user_id g.worker_id r ≡ false) t.rows
      → finish_claimed_task g (idle t now) ≡ (ok false, idle t now)
  finish_refused g a =
      rw (finish_lem g, count_none _ t.rows a, update_none _ (finish_row g) t.rows a) refl

  claim_lem :
      (id : ℤ) (worker : Text) (lease : ℤ)
      → (claim_task_by_id id worker lease (idle t now)).1
        ≡ idle
            (with_rows t (
              update_where
                (is_waiting_task id)
                (claim_row worker
                  (floor_seconds now)
                  (floor_seconds (now + seconds (lease_or_default lease))))
                t.rows))
            now
  unfolding claim_task_by_id execute
  claim_lem id worker lease = ground arith

  -- No row waits under this id: the claim returns nothing and nothing changes.
  claim_refused :
      (id : ℤ) (worker : Text) (lease : ℤ)
      → All (λ r. is_waiting_task id r ≡ false) t.rows
      → claim_task_by_id id worker lease (idle t now) ≡ (ok none, idle t now)
  unfolding claim_task_by_id execute
  claim_refused id worker lease a = rw (count_none _ t.rows a, update_none _ _ t.rows a) refl

  cancel_lem :
      (vanished : ℤ → ℤ → Text) (id user : ℤ)
      → (cancel_by_id_and_user_id vanished id user (idle t now)).1
        ≡ idle
            (with_rows t
              (update_where (is_cancellable id user) (cancel_row (floor_seconds now)) t.rows))
            now
  unfolding cancel_by_id_and_user_id execute
  cancel_lem vanished id user = ground arith

  expire_lem :
      (expire_leases (idle t now)).1
      ≡ idle
          (with_rows t (
            update_where
              (expired_for_timeout (floor_seconds now))
              (timeout_row (floor_seconds now))
              (update_where (expired_for_requeue (floor_seconds now)) requeue_row t.rows)))
          now
  unfolding expire_leases execute
  expire_lem = refl

-- Of two claims of one task the second returns nothing, and leaves the task with the first worker,
-- whoever the workers are and whatever leases they ask for.
pub claim_twice :
    (t : Table) (now : Time) (id : ℤ) (first second : Text) (lease lease' : ℤ)
    → let db = (claim_task_by_id id first lease (idle t now)).1 in
      claim_task_by_id id second lease' db ≡ (ok none, db)
claim_twice t now id first second lease lease' = rw (claim_lem t now id first lease) (
    claim_refused _ now id second lease' (
      update_brings (is_waiting_task id) (claim_row first _ _) (λ r. Unit {0})
        (λ r. is_waiting_task id r ≡ false) (λ r h. ground arith) t.rows
        (All-any (λ r. Unit {0}) (λ r. tt) t.rows)))

-- A worker that has lost its task cannot write a result: where every row that it held had an expired
-- lease, after the scanner its result is refused and nothing changes.
pub finish_after_expiry :
    (t : Table) (now : Time) (g : ImageGeneration)
    → All
        (λ r. held_by g.id g.user_id g.worker_id r ≡ true → is_expired (floor_seconds now) r ≡ true)
        t.rows
    → let db = (expire_leases (idle t now)).1 in finish_claimed_task g db ≡ (ok false, db)
finish_after_expiry t now g a = rw (expire_lem t now) (
    finish_refused _ now g (
      update_brings _ _ (NotHeld) (λ r. held_by g.id g.user_id g.worker_id r ≡ false)
        (λ r h. ground arith) _ (update_brings _ _ _ NotHeld (λ r h. ground arith) t.rows a)))
  where
    NotHeld : Row → Type 0
    NotHeld r =
        held_by g.id g.user_id g.worker_id r ≡ true
        → expired_for_timeout (floor_seconds now) r ≡ true

-- The result of a task that its user has cancelled meanwhile is refused, and nothing changes.
pub finish_after_cancel :
    (t : Table) (now : Time) (vanished : ℤ → ℤ → Text) (g : ImageGeneration)
    → let db = (cancel_by_id_and_user_id vanished g.id g.user_id (idle t now)).1 in
      finish_claimed_task g db ≡ (ok false, db)
finish_after_cancel t now vanished g = rw (cancel_lem t now vanished g.id g.user_id) (
    finish_refused _ now g (
      update_brings _ _ (λ r. Unit {0}) (λ r. held_by g.id g.user_id g.worker_id r ≡ false)
        (λ r h. ground arith) t.rows (All-any (λ r. Unit {0}) (λ r. tt) t.rows)))

-- For a user who owns no task of this id the repository finds nothing, cancels nothing, retries
-- nothing and deletes nothing: the table stays as it is.
pub not_owned :
    (t : Table) (now : Time) (vanished : ℤ → ℤ → Text) (id user : ℤ)
    → All (λ r. owned id user r ≡ false) t.rows
    → (find_by_id_and_user_id id user (idle t now) ≡ (ok none, idle t now))
      × (cancel_by_id_and_user_id vanished id user (idle t now) ≡ (ok none, idle t now))
      × (retry_by_id_and_user_id vanished id user (idle t now) ≡ (ok none, idle t now))
      × (delete_by_id_and_user_id id user (idle t now) ≡ (ok false, idle t now))
unfolding find_by_id_and_user_id cancel_by_id_and_user_id retry_by_id_and_user_id
    delete_by_id_and_user_id execute
not_owned t now vanished id user a = (
  rw (select_none _ t.rows a) refl,
  rw (count_none _ t.rows (under is_active), update_none _ _ t.rows (under is_active)) refl,
  rw (count_none _ t.rows retryable, update_none _ _ t.rows retryable) refl,
  rw (count_none _ t.rows (under is_finished), delete_none _ t.rows (under is_finished)) refl,
)
  where
    under : (f : TaskStatus → Bool) → All (λ r. (owned id user r && f r.status) ≡ false) t.rows
    under f =
        All-map (λ r. owned id user r ≡ false) (λ r. (owned id user r && f r.status) ≡ false)
          (λ r h. rw h) t.rows a

    retryable : All (λ r. is_retryable_row id user r ≡ false) t.rows
    retryable =
        All-map (λ r. owned id user r ≡ false) (λ r. is_retryable_row id user r ≡ false)
          (λ r h. ground arith) t.rows a
