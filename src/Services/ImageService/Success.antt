-- ===== src/Services/ImageService/Success.antt =====
-- What a success of an operation of `ImageService` shows.
use text2image.Base.{
  ◌≡◌, ◌≢◌, refl, ap, ◌∙◌, ℤ, pos, ltb_ℤ, Bool, true, false, Option, none, some, Result, ok, err,
  Action, next, ◌>>=◌, ◌>>◌, fail, guard, arith,
}
use text2image.Models.ImageGeneration.{ImageGeneration}
use text2image.Models.TaskStatus.{can_cancel, can_retry}
use text2image.Errors.{ServiceError}
use text2image.Errors.Repo.{RepoError}
use text2image.Services.Effects.{
  std_error, other_error, Failure, returned, thrown, call, or_return, returned_error, handled,
  try_catch, or_error,
}
use text2image.Services.CacheKeys.{meta_key}
use text2image.Services.ImageService.Cache.{invalidate_list_cache_for}
use text2image.Services.Ports.{Ports}
use text2image.Services.ImageService.{require_user, task_not_found}
use text2image.Services.ImageService.Writes.{
  redis_cleanup, cancel_by_id, retry_by_id, after_cancel, after_retry, cancel_conflict,
  cancel_failed, retry_conflict, retry_failed, cancel_not_allowed, retry_not_allowed,
}

module _ {W : Type 0} where
  err_not_ok :
      {B : Type 0} (x : Failure) (b : B) (w v : W)
      → ◌≢◌ {A = Result Failure B × W} (err x, w) (ok b, v)
  err_not_ok x b w v e = ground arith

  -- A success of two steps is a success of each.
  next-ok :
      {A B : Type 0} (f : A → Action W Failure B) (m : Result Failure A × W) (b : B) (v : W)
      → next f m ≡ (ok b, v)
      → (a : A) × (u : W) × (m ≡ (ok a, u)) × (f a u ≡ (ok b, v))
  next-ok f (ok a, w) b v e = (a, w, refl, e)
  next-ok f (err x, w) b v e = elim (err_not_ok x b w v e) [ ]

  returned_error-ok :
      {A : Type 0} (outcome : Result RepoError A × W) (a : A) (v : W)
      → returned_error outcome ≡ (ok a, v)
      → outcome ≡ (ok a, v)
  returned_error-ok (ok x, w) a v e = ground arith
  returned_error-ok (err x, w) a v e = ground arith

  or_return-ok :
      {A : Type 0} (m : Action W RepoError A) (w : W) (a : A) (v : W)
      → or_return m w ≡ (ok a, v)
      → m w ≡ (ok a, v)
  unfolding or_return
  or_return-ok m w a v e = returned_error-ok (m w) a v e

  or_error-ok :
      {A : Type 0} (found : Option A) (error : ServiceError) (w : W) (a : A) (v : W)
      → or_error found error w ≡ (ok a, v)
      → (found ≡ some a) × (w ≡ v)
  unfolding or_error
  or_error-ok none error w a v e = ground arith
  or_error-ok (some x) error w a v e = ground arith

  guard-ok :
      (b : Bool) (failure : Failure) (w v : W)
      → guard b failure w ≡ (ok tt, v)
      → (b ≡ true) × (w ≡ v)
  guard-ok true failure w v e = ground arith
  guard-ok false failure w v e = ground arith

  handled-ok :
      {A : Type 0} (error : ServiceError) (outcome : Result Failure A × W) (a : A) (v : W)
      → handled (fail (returned error)) outcome ≡ (ok a, v)
      → outcome ≡ (ok a, v)
  handled-ok error (ok x, w) a v e = e
  handled-ok error (err (returned x), w) a v e = ground arith
  handled-ok error (err (thrown (std_error x)), w) a v e = ground arith
  handled-ok error (err (thrown other_error), w) a v e = ground arith

  try_catch-ok :
      {A : Type 0} (body : Action W Failure A) (error : ServiceError) (w : W) (a : A) (v : W)
      → try_catch body (fail (returned error)) w ≡ (ok a, v)
      → body w ≡ (ok a, v)
  unfolding try_catch
  try_catch-ok body error w a v e = handled-ok error (body w) a v e

  found_from :
      {A : Type 0} (m : Action W RepoError A) (w u : W) (x a : A) (v : W)
      → w ≡ u
      → x ≡ a
      → or_return m u ≡ (ok x, v)
      → m w ≡ (ok a, v)
  found_from m w u x a v same there e =
      ap m same ∙ (or_return-ok m u x v e ∙ ap (λ y. (ok y, v)) there)

-- A success has no other value than this one.
abbrev IsAnswer : {W B : Type 0} → B → Result Failure B × W → Type 0
IsAnswer {W = W} {B = B} c outcome = (b : B) (v : W) → outcome ≡ (ok b, v) → c ≡ b

module _ {W : Type 0} where
  next-IsAnswer :
      {A B : Type 0} (f : A → Action W Failure B) (m : Result Failure A × W) (c : B)
      → ((a : A) (u : W) → IsAnswer c (f a u))
      → IsAnswer c (next f m)
  next-IsAnswer f (ok a, w) c h = h a w
  next-IsAnswer f (err x, w) c h = λ b v e. elim (err_not_ok x b w v e) [ ]

  pure-IsAnswer : {B : Type 0} (c : B) (u : W) → IsAnswer {W = W} c (ok c, u)
  pure-IsAnswer c u b v e = ground arith

-- What a change of a task went through: the caller's id is positive, the repository found the task
-- for this user, in a status that allows the change, and the change was made in the repository.
pub record IsChange {W : Type 0} (find change : Action W RepoError (Option ImageGeneration))
    (allowed : ImageGeneration → Bool) (user_id : ℤ) (w : W) (task : ImageGeneration) : Type 0 where
  pub before : ImageGeneration
  pub found_at : W
  pub changed_at : W
  pub positive : ltb_ℤ (pos 0) user_id ≡ true
  pub found : find w ≡ (ok (some before), found_at)
  pub permitted : allowed before ≡ true
  pub changed : change found_at ≡ (ok (some task), changed_at)

module _ {W : Type 0} (find change : Action W RepoError (Option ImageGeneration))
    (allowed : ImageGeneration → Bool) where
  -- The shape that `cancelById` and `retryById` share.
  abbrev changing :
      ℤ
      → ServiceError
      → (ImageGeneration → ServiceError)
      → ServiceError
      → (ImageGeneration → Action W Failure ImageGeneration)
      → ServiceError
      → Action W Failure ImageGeneration
  changing user_id missing refused conflicting body failing =
      require_user user_id
      >> (or_return find >>= λ current. or_error current missing >>= λ image.
          guard (allowed image) (returned (refused image))
          >> (or_return change >>= λ updated. or_error updated conflicting >>= λ task.
              try_catch (body task) (fail (returned failing))))

  changing-IsChange :
      (user_id : ℤ) (missing : ServiceError) (refused : ImageGeneration → ServiceError)
      (conflicting : ServiceError) (body : ImageGeneration → Action W Failure ImageGeneration)
      (failing : ServiceError) (w : W) (task : ImageGeneration) (v : W)
      → ((t : ImageGeneration) (u : W) → IsAnswer t (body t u))
      → changing user_id missing refused conflicting body failing w ≡ (ok task, v)
      → IsChange find change allowed user_id w task
  changing-IsChange user_id missing refused conflicting body failing w task v keeps e =
      let s1 = next-ok _ (require_user user_id w) task v e in
      let g1 = guard-ok _ _ _ _ s1.2 in
      let s2 = next-ok _ (or_return find s1.1) task v s1.3 in
      let s3 = next-ok _ (or_error s2.0 missing s2.1) task v s2.3 in
      let g3 = or_error-ok _ _ _ _ _ s3.2 in
      let s4 = next-ok _ (guard (allowed s3.0) (returned (refused s3.0)) s3.1) task v s3.3 in
      let g4 = guard-ok _ _ _ _ s4.2 in
      let s5 = next-ok _ (or_return change s4.1) task v s4.3 in
      let s6 = next-ok _ (or_error s5.0 conflicting s5.1) task v s5.3 in
      let g6 = or_error-ok _ _ _ _ _ s6.2 in
      let same = keeps s6.0 s6.1 task v (try_catch-ok _ failing _ _ _ s6.3) in
      record {
        before = s3.0;
        found_at = s2.1;
        changed_at = s5.1;
        positive = g1.0;
        found = found_from find _ _ _ _ _ g1.1 g3.0 s2.2;
        permitted = g4.0;
        changed = found_from change _ _ _ _ _ (g3.1 ∙ g4.1) (g6.0 ∙ ap some same) s5.2;
      }

module _ {W : Type 0} (p : Ports W) (user_id id : ℤ) where
  after_cancel-IsAnswer : (t : ImageGeneration) (u : W) → IsAnswer t (after_cancel p user_id id t u)
  unfolding after_cancel
  after_cancel-IsAnswer t u = next-IsAnswer _ (redis_cleanup p id u) t (λ _ u.
      next-IsAnswer _ (call (p.publish_task_updated t) u) t (λ _ u.
        next-IsAnswer _ (call (p.record_task_status t.status) u) t (λ _ u.
          next-IsAnswer _ (call (p.cache_del (meta_key user_id id)) u) t (λ _ u.
            next-IsAnswer _ (invalidate_list_cache_for p user_id u) t (λ _ u. pure-IsAnswer t u)))))

  after_retry-IsAnswer : (t : ImageGeneration) (u : W) → IsAnswer t (after_retry p user_id id t u)
  unfolding after_retry
  after_retry-IsAnswer t u = next-IsAnswer _ (call (p.publish_task_updated t) u) t (λ _ u.
      next-IsAnswer _ (call (p.record_task_status t.status) u) t (λ _ u.
        next-IsAnswer _ (call (p.cache_del (meta_key user_id id)) u) t (λ _ u.
          next-IsAnswer _ (invalidate_list_cache_for p user_id u) t
            (λ _ u. next-IsAnswer _ (call (p.enqueue id) u) t (λ _ u. pure-IsAnswer t u)))))

module _ {W : Type 0} (p : Ports W) (user_id id : ℤ) (w : W) (task : ImageGeneration) (v : W) where
  -- Where `cancelById` answers with a task, the caller's id is positive, the repository found a task
  -- with this id for this user, in a status that may be cancelled, and the task of the answer is the
  -- one that the repository's own cancellation gave back, run on the state that the look-up left.
  pub cancel_by_id-IsChange :
      cancel_by_id p user_id id w ≡ (ok task, v)
      → IsChange
          (p.find_task id user_id)
          (p.cancel_task id user_id)
          (λ i. can_cancel i.status)
          user_id
          w
          task
  unfolding cancel_by_id
  cancel_by_id-IsChange e =
      changing-IsChange (p.find_task id user_id) (p.cancel_task id user_id)
        (λ i. can_cancel i.status) user_id task_not_found (cancel_not_allowed p) cancel_conflict
        (after_cancel p user_id id) cancel_failed w task v (after_cancel-IsAnswer p user_id id) e

  -- Where `retryById` answers with a task, the caller's id is positive, the repository found a task
  -- with this id for this user, finished without success and with a retry left, and the task of the
  -- answer is the one that the repository's own retry gave back, run on the state that the look-up left.
  pub retry_by_id-IsChange :
      retry_by_id p user_id id w ≡ (ok task, v)
      → IsChange
          (p.find_task id user_id)
          (p.retry_task id user_id)
          (λ i. can_retry i.status i.retry_count i.max_retries)
          user_id
          w
          task
  unfolding retry_by_id
  retry_by_id-IsChange e =
      changing-IsChange (p.find_task id user_id) (p.retry_task id user_id)
        (λ i. can_retry i.status i.retry_count i.max_retries) user_id task_not_found
        (retry_not_allowed p) retry_conflict (after_retry p user_id id) retry_failed w task v
        (after_retry-IsAnswer p user_id id) e
