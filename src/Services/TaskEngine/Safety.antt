-- ===== src/Services/TaskEngine/Safety.antt =====
-- The engine and the image service at work on one database: any sequence of turns of the workers and
-- the scanner, starts and enqueues of the engine, and requests to the service.
use text2image.Base.{◌≡◌, refl, ℕ, ℤ, true, false, Text, arith}
use text2image.Models.TaskStatus.{TaskStatus}
use text2image.Database.Table.{is_finished, is_generating}
use text2image.Database.Session.{Database}
use text2image.Database.Session.Keeps.{IsGood}
use text2image.Database.Invariant.{IsValid}
use text2image.Database.ImageRepo.Calls.{
  RepoCall, run_call, insert_call, find_user_call, find_user_status_call, find_id_call,
  find_request_call, count_active_call, delete_call, claim_next_call, claim_id_call,
  queued_ids_call, expire_returning_call, renew_call, finish_call, defer_call, cancel_call,
  retry_call, expire_call, update_status_call,
}
use text2image.Database.ImageRepo.Lifecycle.{IsLifecycleCall}
use text2image.Database.ImageRepo.Safety.{IsProper, run_call-IsValid}
use text2image.Services.Ports.{Ports}
use text2image.Services.Wiring.{over_database}
use text2image.Services.Wiring.Served.{Request, serve, serve-Runs}
use text2image.Services.Redis.{Commands}
use text2image.Services.TaskEngine.{Engine, EnginePorts, TaskEngineConfig}
use text2image.Services.TaskEngine.Worker.{worker_turn}
use text2image.Services.TaskEngine.Scanner.{scanner_turn, bootstrap, enqueue_and_start}
use text2image.Services.TaskEngine.Runs.{Runs, no_call, one_call, Runs-append}
use text2image.Services.TaskEngine.Steps.Workers.{worker_turn-Traced}
use text2image.Services.TaskEngine.Steps.Scanning.{
  scanner_turn-Traced, bootstrap-Traced, enqueue_and_start-Traced,
}

finished-not_generating : (s : TaskStatus) → is_finished s ≡ true → is_generating s ≡ false
finished-not_generating s f = ground arith

-- A call of the life cycle hands no generating status to the repository.
IsLifecycleCall-IsProper : (c : RepoCall) → IsLifecycleCall c → IsProper c
IsLifecycleCall-IsProper (insert_call g) q = rw q refl
IsLifecycleCall-IsProper (finish_call g) q = finished-not_generating g.status q
IsLifecycleCall-IsProper (update_status_call id user status message) q = absurd q
IsLifecycleCall-IsProper (find_user_call user page size) q = tt
IsLifecycleCall-IsProper (find_user_status_call user status page size) q = tt
IsLifecycleCall-IsProper (find_id_call id user) q = tt
IsLifecycleCall-IsProper (find_request_call request user) q = tt
IsLifecycleCall-IsProper (count_active_call user) q = tt
IsLifecycleCall-IsProper (delete_call id user) q = tt
IsLifecycleCall-IsProper (claim_next_call worker lease) q = tt
IsLifecycleCall-IsProper (claim_id_call id worker lease) q = tt
IsLifecycleCall-IsProper queued_ids_call q = tt
IsLifecycleCall-IsProper expire_returning_call q = tt
IsLifecycleCall-IsProper (renew_call id user worker lease) q = tt
IsLifecycleCall-IsProper (defer_call id user worker code message) q = tt
IsLifecycleCall-IsProper (cancel_call id user) q = tt
IsLifecycleCall-IsProper (retry_call id user) q = tt
IsLifecycleCall-IsProper expire_call q = tt

module _ (vanished : ℤ → ℤ → Text) where
  Runs-IsValid : (a b : Database) → Runs vanished a b → IsGood IsValid a → IsGood IsValid b
  Runs-IsValid a b (no_call db) good = good
  Runs-IsValid a b (one_call c db db' q run) good =
      Runs-IsValid (run_call vanished c a) b run
        (run_call-IsValid vanished c a (IsLifecycleCall-IsProper c q) good)

  -- The states that are reached from a state of the engine.
  -- A request to the image service is one step, and its calls beside the repository act on a state of
  -- their own; what it enqueues is a step of the engine.
  pub data Reaches {S W V : Type 0} (r : Commands S) (p : EnginePorts W) (service : Ports V)
      (config : TaskEngineConfig) (e : Engine S W) : Engine S W → Type 0 where
    begin : Reaches r p service config e e
    works :
        (e' : Engine S W) (due : ℕ) (worker : Text)
        → Reaches r p service config e e'
        → Reaches r p service config e (worker_turn r p config due worker e').1
    scans :
        (e' : Engine S W)
        → Reaches r p service config e e'
        → Reaches r p service config e (scanner_turn r p e').1
    starts :
        (e' : Engine S W)
        → Reaches r p service config e e'
        → Reaches r p service config e (bootstrap r p config e').1
    enqueues :
        (e' : Engine S W) (id : ℤ)
        → Reaches r p service config e e'
        → Reaches r p service config e (enqueue_and_start r p config id e').1
    serves :
        (e' : Engine S W) (request : Request) (v : V)
        → Reaches r p service config e e'
        → Reaches r p service config e (record e' {
          database = (serve (over_database vanished service) request (e'.database, v)).0;
        })

  -- Whatever the turns of any workers and of the scanner, the starts, the enqueues and the requests
  -- to the image service are, in whatever order, and however the calls of Redis, of the model
  -- service, of the storage and of the ports end, the database is led from one state of the engine
  -- to another by calls of the life cycle: every task that `ImageService::create` inserts is queued,
  -- every result that a worker gives back is finished, and no status is set by hand. One request and
  -- one turn are one step each.
  pub Reaches-Runs :
      {S W V : Type 0} (r : Commands S) (p : EnginePorts W) (service : Ports V)
      (config : TaskEngineConfig) (e e' : Engine S W)
      → Reaches r p service config e e'
      → Runs vanished e.database e'.database
  Reaches-Runs r p service config e e' begin = no_call e.database
  Reaches-Runs r p service config e e' (works e'' due worker reach) =
      Runs-append vanished _ _ _ (Reaches-Runs r p service config e e'' reach)
        ((worker_turn-Traced vanished r p config due worker).traced e'').0
  Reaches-Runs r p service config e e' (scans e'' reach) =
      Runs-append vanished _ _ _ (Reaches-Runs r p service config e e'' reach)
        ((scanner_turn-Traced vanished r p).traced e'').0
  Reaches-Runs r p service config e e' (starts e'' reach) =
      Runs-append vanished _ _ _ (Reaches-Runs r p service config e e'' reach)
        ((bootstrap-Traced vanished r p config).traced e'').0
  Reaches-Runs r p service config e e' (enqueues e'' id reach) =
      Runs-append vanished _ _ _ (Reaches-Runs r p service config e e'' reach)
        ((enqueue_and_start-Traced vanished r p config id).traced e'').0
  Reaches-Runs r p service config e e' (serves e'' request v reach) =
      Runs-append vanished _ _ _ (Reaches-Runs r p service config e e'' reach)
        (serve-Runs vanished service request (e''.database, v))

  -- In every state that the engine and the requests to the image service reach, the table is valid,
  -- if it was at the start and other sessions keep it so: every generating task has a worker and a
  -- lease, ids are distinct and below the counter.
  pub Reaches-IsValid :
      {S W V : Type 0} (r : Commands S) (p : EnginePorts W) (service : Ports V)
      (config : TaskEngineConfig) (e e' : Engine S W)
      → Reaches r p service config e e'
      → IsGood IsValid e.database
      → IsGood IsValid e'.database
  Reaches-IsValid r p service config e e' reach good =
      Runs-IsValid e.database e'.database (Reaches-Runs r p service config e e' reach) good
