-- ===== src/Lib.antt =====
-- Verification of the backend of Text2Image, a service that takes image-generation tasks over HTTP,
-- keeps them in a MySQL table, and has workers claim them under leases and send them to a model
-- service. All the code is under Backend/.
--
-- The parts and how they interact
--   The controllers call `ImageService`, which checks the request, reads and writes tasks through
--   `IImageRepo`, keeps answers in a cache, publishes task events and hands task ids to the task
--   engine. The workers of the engine claim, renew, defer and finish tasks through the same
--   repository, and ask the model health gate before they generate. The lease scanner requeues or
--   times out the tasks whose worker vanished. Errors pass through three layers: exceptions of the
--   database, `RepoError`, `ServiceError`.
--
-- The files
--   Base: numbers, lists, byte strings, results and stateful fallible actions that all files share.
--   Models: Backend/include/models/task_status.h (TaskStatus), Backend/src/models/image_generation.cpp
--     and its header (ImageGeneration), Backend/include/models/failure_code.h (FailureCode).
--   Utils/Chrono: Backend/include/utils/chrono_utils.h.
--   Errors: Backend/include/services/service_error.h; Errors/Repo: Backend/src/database/repo_error.cpp,
--     Backend/include/database/repo_invoke.h, Backend/src/services/repo_error_mapper.cpp; Errors/Http:
--     Backend/src/services/http_error_mapper.cpp and `HttpResult::toExpectedBody`.
--   Database: Backend/src/database/ImageRepo.cpp. Table has the rows and what the SQL clauses say of
--     them, Session the statements, Invariant what holds between statements. ImageRepo has the
--     methods: reading in the parent, claims and results of workers in Claims, the lease scanner in
--     Leases, what the owner of a task does in Owner; Calls makes one type of all calls. A method
--     `claimTaskById` is `claim_task_by_id`, and so on. Safety, Lifecycle, Ownership, RoundTrip and
--     Paging hold the proofs. UserRepo is Backend/src/database/UserRepo.cpp over its own table.
--   Services: Backend/src/services. HealthGate is model_health_gate.cpp, RefreshTokens
--     refresh_token_store.cpp (the in-memory store; its child RedisStore the one in Redis), EventHub
--     task_event_hub.cpp, RateLimiter the token bucket of rate_limiter.cpp, CacheKeys
--     Backend/include/services/image_cache_key.h. Validation and ImageService are image_service.cpp;
--     Ports is the record of what that file calls and Effects its exceptions and early returns. The
--     operations stand in ImageService/Reads and ImageService/Writes, their helpers in
--     ImageService/Cache; ImageService/Frame has what they leave as it is. Wiring puts the repository of
--     Database behind the service, and its child Served follows the requests.
--   Services/Generation is generation_client.cpp: the merge of an answer in the parent, `generate` in
--     Client, `checkHealth` in Health. Services/Redis is redis_client.cpp: the connection in the
--     parent, the queue in Queue, the leases in Lease, the reading of ids in Numbers; Memory is a
--     server in memory to try them on. Services/TaskEngine is task_engine.cpp: the queueing in the
--     parent, `applyModelHealthGate` in Gate, `workerLoop`, `processClaimedTask` and the lease keeper
--     in Worker, `leaseExpiryLoop`, `recoverOrphanedTasks` and `bootstrap` in Scanner, the
--     configuration in Config. Runs says what an action of the engine does to the database, Steps
--     and Safety prove it; Leads, Progress and Liveness follow one turn step by step. Services/Auth
--     is auth_service.cpp, Models/User user.cpp, Utils/RequestId request_id.cpp. Services/CacheClient
--     is cache_client.cpp. Services/Yields has the rules by which actions are taken step by step.
--   Samples and Tests, beside the parts, hold concrete data and the theorems at work on it.
--
-- How state and numbers are modelled
--   A method of the repository is an action on a database: its table, the clock, and a schedule of
--   what happens before each statement, which may move the clock, change the table as another
--   session would, and make the statement fail. Each statement commits by itself, as the code runs
--   them. An operation of the image service is an action on the state of its collaborators, which
--   are parameters: any of their calls may throw. A loop of the code is a recursion on its list; no
--   function runs on fuel but the printing of a decimal number, whose fuel is the number and one,
--   more than its digits.
--   The task engine's state is a database session, the Redis client with its server, and the rest of
--   the world. A thread is a sequence of turns, the engine an interleaving of the turns of all its
--   threads; what other sessions and clients do within a turn is in the schedules of the database
--   and of Redis. The renewals of the lease keeper that come due while the model works are a
--   parameter of the turn. Pauses and waits on the condition variable change no state. The commands
--   of Redis are a parameter, and the theorems about the queue and the leases state the documented
--   laws that they rely on; a Lua script of the code is the composition of its commands.
--   Ids, counters and `int` members are integers; `to_int32` is the cast where the code casts. A time
--   point is a number of nanoseconds, a DATETIME column a number of seconds. The generation time,
--   a `double` that is only copied, is an integer of microseconds. A string is its list of bytes and
--   compares by bytes, where the schema's collation ignores case. A column has the type that the
--   code reads from it, and the schema name is not empty; the status column holds a status.
--   The token bucket's script counts in floating-point numbers; here tokens are exact fractions.
--   `ensureTable` is one statement that leaves the rows as they are. An INSERT refuses a value that
--   its column cannot hold, as a server in strict mode does; an UPDATE that is given such a value is
--   among the statements that may fail.
--
-- What is not modelled
--   Logging; the JSON library, MySQL, Redis, MinIO and the calendar functions, which are parameters;
--   the hashing of passwords and the signatures of tokens; the cache's counters, the metrics and the
--   controllers; the schema migration; start-up; the model service and the frontend, which are other
--   programs.
pub mod Base
pub mod Models
pub mod Utils
pub mod Errors
pub mod Services
pub mod Database
