-- ===== src/Services/Effects.antt =====
-- Exceptions and early returns. What a service function does ends in a value, in a `ServiceError`
-- that it returns, or in an exception that it lets through.
use text2image.Base.{Option, none, some, Text, Result, ok, err, Action}
use text2image.Errors.{ServiceError}
use text2image.Errors.Repo.{RepoError, map_repo_error}

-- What `catch (const std::exception&)` catches, and what only `catch (...)` does.
pub data Exception : Type 0 where
  std_error : Text → Exception
  other_error : Exception

pub data Failure : Type 0 where
  returned : ServiceError → Failure
  thrown : Exception → Failure

abbrev pub returned_error : {W A : Type 0} → Result RepoError A × W → Result Failure A × W
returned_error (ok a, w) = (ok a, w)
returned_error (err e, w) = (err (returned (map_repo_error e)), w)

-- `if (!result) return std::unexpected(mapRepoError(result.error()));`
unfoldable pub or_return : {W A : Type 0} → Action W RepoError A → Action W Failure A
or_return m w = returned_error (m w)

abbrev pub let_through : {W A : Type 0} → Result Exception A × W → Result Failure A × W
let_through (ok a, w) = (ok a, w)
let_through (err e, w) = (err (thrown e), w)

-- A call whose exceptions are not caught here.
unfoldable pub call : {W A : Type 0} → Action W Exception A → Action W Failure A
call m w = let_through (m w)

-- A call that only computes.
unfoldable pub compute : {W A : Type 0} → Result Exception A → Action W Failure A
compute r w = let_through (r, w)

abbrev pub handled :
    {W A : Type 0} → Action W Failure A → Result Failure A × W → Result Failure A × W
handled handler (ok a, w) = (ok a, w)
handled handler (err (returned e), w) = (err (returned e), w)
handled handler (err (thrown (std_error what)), w) = handler w
handled handler (err (thrown other_error), w) = (err (thrown other_error), w)

-- `try { body } catch (const std::exception&) { handler }`
unfoldable pub try_catch :
    {W A : Type 0} → Action W Failure A → Action W Failure A → Action W Failure A
try_catch body handler w = handled handler (body w)

abbrev pub handled_all :
    {W A : Type 0} → Action W Failure A → Result Failure A × W → Result Failure A × W
handled_all handler (ok a, w) = (ok a, w)
handled_all handler (err (returned e), w) = (err (returned e), w)
handled_all handler (err (thrown e), w) = handler w

-- `try { body } catch (...) { handler }`
unfoldable pub try_catch_all :
    {W A : Type 0} → Action W Failure A → Action W Failure A → Action W Failure A
try_catch_all body handler w = handled_all handler (body w)

-- `if (!*found) return std::unexpected(error);`
unfoldable pub or_error : {W A : Type 0} → Option A → ServiceError → Action W Failure A
or_error none error w = (err (returned error), w)
or_error (some a) error w = (ok a, w)
