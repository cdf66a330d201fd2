-- ===== src/Services/ImageService/Frame.antt =====
-- Actions of the image service whose state keeps a property: rules for each way in which
-- Backend/src/services/image_service.cpp puts its calls together.
pub mod Helpers
pub mod Reads
pub mod Writes
use text2image.Base.{
  Bool, true, false, Option, none, some, Result, ok, err, Action, ◌>>=◌, ◌>>◌, pure, fail, guard,
  when, if◌then◌else◌,
}
use text2image.Errors.{ServiceError}
use text2image.Errors.Repo.{RepoError}
use text2image.Services.Effects.{
  Exception, std_error, other_error, Failure, returned, thrown, call, let_through, compute,
  or_return, returned_error, or_error, try_catch, handled, try_catch_all, handled_all,
}
use text2image.Services.Yields.{Preserves, bind-Preserves, pure-Preserves}

module _ {W : Type 0} (P : W → Type 0) where
  let_through-state : {A : Type 0} (o : Result Exception A × W) → P o.1 → P (let_through o).1
  let_through-state (ok a, w) h = h
  let_through-state (err e, w) h = h

  pub call-Preserves :
      {A : Type 0} (m : Action W Exception A) → Preserves P m → Preserves P (call m)
  unfolding call
  call-Preserves m k = record { preserves = λ w h. let_through-state (m w) (k.preserves w h) }

  pub compute-Preserves : {A : Type 0} (r : Result Exception A) → Preserves P (compute r)
  unfolding compute
  compute-Preserves r = record { preserves = λ w h. let_through-state (r, w) h }

  returned-state : {A : Type 0} (o : Result RepoError A × W) → P o.1 → P (returned_error o).1
  returned-state (ok a, w) h = h
  returned-state (err e, w) h = h

  pub or_return-Preserves :
      {A : Type 0} (m : Action W RepoError A) → Preserves P m → Preserves P (or_return m)
  unfolding or_return
  or_return-Preserves m k = record { preserves = λ w h. returned-state (m w) (k.preserves w h) }

  pub or_error-Preserves :
      {A : Type 0} (found : Option A) (error : ServiceError) → Preserves P (or_error found error)
  unfolding or_error
  or_error-Preserves none error = record { preserves = λ w h. h }
  or_error-Preserves (some a) error = record { preserves = λ w h. h }

  pub fail-Preserves : {A : Type 0} (e : Failure) → Preserves P (fail {A = A} e)
  fail-Preserves e = record { preserves = λ w h. h }

  pub guard-Preserves : (b : Bool) (e : Failure) → Preserves P (guard b e)
  guard-Preserves true e = record { preserves = λ w h. h }
  guard-Preserves false e = record { preserves = λ w h. h }

  pub if-Preserves :
      {A : Type 0} (b : Bool) (m k : Action W Failure A)
      → Preserves P m
      → Preserves P k
      → Preserves P (if b then m else k)
  if-Preserves true m k h h' = h
  if-Preserves false m k h h' = h'

  pub when-Preserves :
      (b : Bool) (m : Action W Failure (Unit {0})) → Preserves P m → Preserves P (when b m)
  when-Preserves true m h = h
  when-Preserves false m h = record { preserves = λ w q. q }

  -- A step of whose value nothing need be known.
  pub step :
      {A B : Type 0} (m : Action W Failure A) (f : A → Action W Failure B)
      → Preserves P m
      → ((a : A) → Preserves P (f a))
      → Preserves P (m >>= f)
  step m f h k = bind-Preserves P m f h k

  pub done : {A : Type 0} (a : A) → Preserves P (pure {S = W} {E = Failure} a)
  done a = pure-Preserves P a

  handled-state :
      {A : Type 0} (handler : Action W Failure A)
      → Preserves P handler
      → (o : Result Failure A × W) → P o.1
      → P (handled handler o).1
  handled-state handler k (ok a, w) h = h
  handled-state handler k (err (returned e), w) h = h
  handled-state handler k (err (thrown (std_error what)), w) h = k.preserves w h
  handled-state handler k (err (thrown other_error), w) h = h

  pub try_catch-Preserves :
      {A : Type 0} (body handler : Action W Failure A)
      → Preserves P body
      → Preserves P handler
      → Preserves P (try_catch body handler)
  unfolding try_catch
  try_catch-Preserves body handler h k = record {
    preserves = λ w q. handled-state handler k (body w) (h.preserves w q);
  }

  handled_all-state :
      {A : Type 0} (handler : Action W Failure A)
      → Preserves P handler
      → (o : Result Failure A × W) → P o.1
      → P (handled_all handler o).1
  handled_all-state handler k (ok a, w) h = h
  handled_all-state handler k (err (returned e), w) h = h
  handled_all-state handler k (err (thrown e), w) h = k.preserves w h

  pub try_catch_all-Preserves :
      {A : Type 0} (body handler : Action W Failure A)
      → Preserves P body
      → Preserves P handler
      → Preserves P (try_catch_all body handler)
  unfolding try_catch_all
  try_catch_all-Preserves body handler h k = record {
    preserves = λ w q. handled_all-state handler k (body w) (h.preserves w q);
  }
