-- ===== src/Services/ImageService/Errors.antt =====
-- Which exceptions leave an operation of `ImageService`, and what a success of it shows.
use text2image.Base.{
  ap, ◌≢◌, ℤ, Bool, true, false, Option, none, some, Text, Result, ok, err, Action, next, fail,
  guard, arith,
}
use text2image.Errors.{ServiceError}
use text2image.Errors.Repo.{RepoError}
use text2image.Services.Effects.{
  std_error, other_error, Failure, returned, thrown, or_return, returned_error, handled, try_catch,
  or_error,
}
use text2image.Services.Ports.{Ports}
use text2image.Services.ImageService.Reads.{get_binary_by_id}
use text2image.Services.ImageService.Writes.{cancel_by_id, retry_by_id, delete_by_id}

-- No outcome of the action is a `std::exception`.
abbrev pub IsContained : {W A : Type 0} → Result Failure A × W → Type 0
IsContained outcome = (what : Text) → outcome.0 ≢ err (thrown (std_error what))

abbrev failure_only : {A B : Type 0} → Result Failure A → Result Failure B
failure_only (ok a) = err (thrown other_error)
failure_only (err e) = err e

module _ {W : Type 0} where
  next-IsContained :
      {A B : Type 0} (f : A → Action W Failure B) (m : Result Failure A × W)
      → IsContained m
      → ((a : A) (w : W) → IsContained (f a w))
      → IsContained (next f m)
  next-IsContained f (ok a, w) h k what same = k a w what same
  next-IsContained f (err e, w) h k what same = h what (ap failure_only same)

  returned_error-IsContained :
      {A : Type 0} (outcome : Result RepoError A × W) → IsContained (returned_error outcome)
  returned_error-IsContained (ok a, w) what = ground arith
  returned_error-IsContained (err e, w) what = ground arith

  or_return-IsContained :
      {A : Type 0} (m : Action W RepoError A) (w : W) → IsContained (or_return m w)
  unfolding or_return
  or_return-IsContained m w = returned_error-IsContained (m w)

  or_error-IsContained :
      {A : Type 0} (found : Option A) (error : ServiceError) (w : W)
      → IsContained (or_error found error w)
  unfolding or_error
  or_error-IsContained none error w what = ground arith
  or_error-IsContained (some a) error w what = ground arith

  guard-IsContained :
      (b : Bool) (error : ServiceError) (w : W) → IsContained (guard b (returned error) w)
  guard-IsContained true error w what = ground arith
  guard-IsContained false error w what = ground arith

  handled-IsContained :
      {A : Type 0} (error : ServiceError) (outcome : Result Failure A × W)
      → IsContained (handled (fail (returned error)) outcome)
  handled-IsContained error (ok a, w) what = ground arith
  handled-IsContained error (err (returned e), w) what = ground arith
  handled-IsContained error (err (thrown (std_error e)), w) what = ground arith
  handled-IsContained error (err (thrown other_error), w) what = ground arith

  try_catch-IsContained :
      {A : Type 0} (body : Action W Failure A) (error : ServiceError) (w : W)
      → IsContained (try_catch body (fail (returned error)) w)
  unfolding try_catch
  try_catch-IsContained body error w = handled-IsContained error (body w)

module _ {W : Type 0} (p : Ports W) (user_id id : ℤ) (w : W) where
  -- Whatever the repository, the cache, the storage, the event hub, Redis and the task engine do, no
  -- `std::exception` leaves `cancelById`, `retryById`, `deleteById` or `getBinaryById`: each ends in a
  -- value, in a `ServiceError`, or lets through what only `catch (...)` would catch.
  pub operations-IsContained :
      IsContained (cancel_by_id p user_id id w)
      × IsContained (retry_by_id p user_id id w)
      × IsContained (delete_by_id p user_id id w)
      × IsContained (get_binary_by_id p user_id id w)
  unfolding cancel_by_id retry_by_id delete_by_id get_binary_by_id
  operations-IsContained = (
    next-IsContained _ _ (guard-IsContained _ _ w) (λ _ w.
        next-IsContained _ _ (or_return-IsContained _ w) (λ current w.
          next-IsContained _ _ (or_error-IsContained current _ w) (λ image w.
            next-IsContained _ _ (guard-IsContained _ _ w) (λ _ w.
              next-IsContained _ _ (or_return-IsContained _ w) (λ updated w.
                next-IsContained _ _ (or_error-IsContained updated _ w)
                  (λ task w. try_catch-IsContained _ _ w)))))),
    next-IsContained _ _ (guard-IsContained _ _ w) (λ _ w.
        next-IsContained _ _ (or_return-IsContained _ w) (λ current w.
          next-IsContained _ _ (or_error-IsContained current _ w) (λ image w.
            next-IsContained _ _ (guard-IsContained _ _ w) (λ _ w.
              next-IsContained _ _ (or_return-IsContained _ w) (λ updated w.
                next-IsContained _ _ (or_error-IsContained updated _ w)
                  (λ task w. try_catch-IsContained _ _ w)))))),
    next-IsContained _ _ (guard-IsContained _ _ w) (λ _ w.
        next-IsContained _ _ (or_return-IsContained _ w) (λ current w.
          next-IsContained _ _ (or_error-IsContained current _ w) (λ image w.
            next-IsContained _ _ (guard-IsContained _ _ w) (λ _ w.
              next-IsContained _ _ (or_return-IsContained _ w) (λ deleted w.
                next-IsContained _ _ (guard-IsContained _ _ w)
                  (λ _ w. try_catch-IsContained _ _ w)))))),
    next-IsContained _ _ (guard-IsContained _ _ w) (λ _ w.
        next-IsContained _ _ (or_return-IsContained _ w) (λ current w.
          next-IsContained _ _ (or_error-IsContained current _ w) (λ image w.
            next-IsContained _ _ (guard-IsContained _ _ w) (λ _ w. try_catch-IsContained _ _ w)))),
  )
