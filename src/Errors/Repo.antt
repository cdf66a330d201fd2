-- ===== src/Errors/Repo.antt =====
-- Backend/src/database/repo_error.cpp, Backend/include/database/repo_invoke.h and
-- Backend/src/services/repo_error_mapper.cpp.
use text2image.Base.{
  ◌||◌, Bool, String, Text, bytes, lower, contains, if◌then◌else◌, Result, ok, err, Action,
}
use text2image.Errors.{
  ServiceError, service_error, service_unavailable, conflict, internal_server_error,
}

pub data Kind : Type 0 where
  db_unavailable query_failed constraint_violation serialization internal : Kind

pub record RepoError : Type 0 where
  pub kind : Kind
  pub message : Text

-- What a repository function throws: the arms of `repoInvoke`.
pub data Thrown : Type 0 where
  serialization_error : Text → Thrown
  mysqlx_error : Text → Thrown
  std_exception : Text → Thrown
  other_exception : Thrown

unfoldable pub contains_insensitive : Text → Text → Bool
contains_insensitive value needle = contains (lower value) (lower needle)

unfoldable pub classify_error_message : Text → Kind
classify_error_message message =
    if has "db not initialized" || has "database name is empty"
    then internal
    else if has "can't connect"
        || has "cannot connect"
        || has "connection refused"
        || has "lost connection"
        || has "server has gone away"
        || has "not connected"
    then db_unavailable
    else if has "duplicate entry" || has "foreign key constraint fails"
    then constraint_violation
    else query_failed
  where
    has : String → Bool
    has needle = contains_insensitive message (bytes needle)

unfoldable pub make_repo_error_from_mysql_message : Text → RepoError
make_repo_error_from_mysql_message message = record {
  kind = classify_error_message message;
  message = message;
}

abbrev pub query_failed_to_internal : Kind → Kind
query_failed_to_internal query_failed = internal
query_failed_to_internal kind = kind

unfoldable pub make_repo_error_from_exception_message : Text → RepoError
make_repo_error_from_exception_message message = record {
  kind = query_failed_to_internal (classify_error_message message);
  message = message;
}

unfoldable pub to_repo_error : Thrown → RepoError
to_repo_error (serialization_error what) = record { kind = serialization; message = what }
to_repo_error (mysqlx_error what) = make_repo_error_from_mysql_message what
to_repo_error (std_exception what) = make_repo_error_from_exception_message what
to_repo_error other_exception = record {
  kind = internal;
  message = bytes "unknown repository error";
}

abbrev invoked : {S A : Type 0} → Result Thrown A × S → Result RepoError A × S
invoked (ok a, s) = (ok a, s)
invoked (err e, s) = (err (to_repo_error e), s)

unfoldable pub repo_invoke : {S A : Type 0} → Action S Thrown A → Action S RepoError A
repo_invoke fn s = invoked (fn s)

abbrev error_by_kind : Kind → ServiceError
error_by_kind db_unavailable =
    service_error service_unavailable "database_unavailable" "database is unavailable"
error_by_kind constraint_violation =
    service_error conflict "database_constraint_violation" "database constraint violation"
error_by_kind serialization =
    service_error internal_server_error "database_serialization_failed"
      "failed to read database row"
error_by_kind query_failed =
    service_error internal_server_error "database_query_failed" "database query failed"
error_by_kind internal =
    service_error internal_server_error "database_internal_error" "database operation failed"

unfoldable pub map_repo_error : RepoError → ServiceError
map_repo_error e = error_by_kind e.kind
