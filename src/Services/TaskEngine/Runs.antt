-- ===== src/Services/TaskEngine/Runs.antt =====
-- What an action of the engine does to the database: a run of calls of the repository, each a call
-- of the life cycle. An action whose effect on the database is such a run is `Traced`.
use text2image.Base.{
  ◌≡◌, ℤ, Bool, true, false, Text, Result, ok, err, Action, next, ◌>>=◌, pure, if◌then◌else◌,
}
use text2image.Errors.Repo.{RepoError}
use text2image.Database.Session.{Database}
use text2image.Database.ImageRepo.Calls.{RepoCall, run_call}
use text2image.Database.ImageRepo.Lifecycle.{IsLifecycleCall}
use text2image.Services.Effects.{Exception, std_error, other_error}
use text2image.Services.Generation.{rescue, caught}
use text2image.Services.Redis.{RedisConnection}
use text2image.Services.Yields.{IsOutcome, Any-IsOutcome, Yields, Any}
use text2image.Services.TaskEngine.{
  Engine, on_repo, on_redis, on_rest, rescue_standard, handler_of_standard,
}

module _ (vanished : ℤ → ℤ → Text) where
  pub data Runs : Database → Database → Type 0 where
    no_call : (db : Database) → Runs db db
    one_call :
        (c : RepoCall) (db db' : Database)
        → IsLifecycleCall c
        → Runs (run_call vanished c db) db'
        → Runs db db'

  pub Runs-append : (a b c : Database) → Runs a b → Runs b c → Runs a c
  Runs-append a b c (no_call db) run' = run'
  Runs-append a b c (one_call call db db' q run) run' =
      one_call call a c q (Runs-append _ b c run run')

  module _ {S W : Type 0} where
    -- The value satisfies `Q`, and the database has seen a run of calls.
    pub record Traced {A : Type 0} (m : Action (Engine S W) Exception A) (Q : A → Type 0)
        : Type 0 where
      pub traced : (e : Engine S W) → Runs e.database (m e).1.database × IsOutcome Q Any (m e)

    pub pure-Traced : {A : Type 0} (Q : A → Type 0) (a : A) → Q a → Traced (pure a) Q
    pure-Traced Q a q = record { traced = λ e. (no_call e.database, q) }

    next-run :
        {A B : Type 0} (Q : A → Type 0) (R : B → Type 0) (f : A → Action (Engine S W) Exception B)
        → ((a : A) → Q a → Traced (f a) R)
        → (db : Database) (o : Result Exception A × Engine S W) → Runs db o.1.database
        → IsOutcome Q Any o
        → Runs db (next f o).1.database × IsOutcome R Any (next f o)
    next-run Q R f k db (ok a, e) run q =
        let rest = (k a q).traced e in (Runs-append db e.database _ run rest.0, rest.1)
    next-run Q R f k db (err x, e) run q = (run, tt)

    pub bind-Traced :
        {A B : Type 0} (Q : A → Type 0) (R : B → Type 0) (m : Action (Engine S W) Exception A)
        (f : A → Action (Engine S W) Exception B)
        → Traced m Q
        → ((a : A) → Q a → Traced (f a) R)
        → Traced (m >>= f) R
    bind-Traced Q R m f h k = record {
      traced = λ e. let start = h.traced e in next-run Q R f k e.database (m e) start.0 start.1;
    }

    -- A step of whose value nothing need be known.
    pub then-Traced :
        {A B : Type 0} (m : Action (Engine S W) Exception A)
        (f : A → Action (Engine S W) Exception B)
        → Traced m Any
        → ((a : A) → Traced (f a) Any)
        → Traced (m >>= f) Any
    then-Traced m f h k = bind-Traced Any Any m f h (λ a q. k a)

    pub if-Traced :
        {A : Type 0} (b : Bool) (m k : Action (Engine S W) Exception A)
        → Traced m Any
        → Traced k Any
        → Traced (if b then m else k) Any
    if-Traced true m k h h' = h
    if-Traced false m k h h' = h'

    caught-run :
        {A : Type 0} (h : Exception → Action (Engine S W) Exception A)
        → ((x : Exception) → Traced (h x) Any)
        → (db : Database) (o : Result Exception A × Engine S W) → Runs db o.1.database
        → IsOutcome Any Any o
        → Runs db (caught h o).1.database × IsOutcome Any Any (caught h o)
    caught-run h k db (ok a, e) run q = (run, tt)
    caught-run h k db (err x, e) run q =
        let rest = (k x).traced e in (Runs-append db e.database _ run rest.0, rest.1)

    pub rescue-Traced :
        {A : Type 0} (m : Action (Engine S W) Exception A)
        (h : Exception → Action (Engine S W) Exception A)
        → Traced m Any
        → ((x : Exception) → Traced (h x) Any)
        → Traced (rescue m h) Any
    unfolding rescue
    rescue-Traced m h t k = record {
      traced = λ e. let start = t.traced e in caught-run h k e.database (m e) start.0 start.1;
    }

    pub rescue_standard-Traced :
        {A : Type 0} (m k : Action (Engine S W) Exception A)
        → Traced m Any
        → Traced k Any
        → Traced (rescue_standard m k) Any
    unfolding rescue_standard
    rescue_standard-Traced m k t t' = rescue-Traced m _ t λ x. handled x
      where
        handled : (x : Exception) → Traced (handler_of_standard k x) Any
        handled (std_error what) = t'
        handled other_error = record { traced = λ e. (no_call e.database, tt) }

    -- What does not touch the database.
    pub redis-Traced :
        {A : Type 0} (m : Action (RedisConnection S) Exception A) → Traced (on_redis m) Any
    unfolding on_redis
    redis-Traced m = record { traced = λ e. (no_call e.database, Any-IsOutcome (on_redis m e)) }

    rest-IsOutcome :
        {A : Type 0} (Q : A → Type 0) (e : Engine S W) (o : Result Exception A × W)
        → IsOutcome Q Any o
        → IsOutcome {S = Engine S W} {E = Exception} Q Any (o.0, record e { rest = o.1 })
    rest-IsOutcome Q e (ok a, w) q = q
    rest-IsOutcome Q e (err x, w) q = tt

    pub rest-Traced :
        {A : Type 0} (Q : A → Type 0) (m : Action W Exception A)
        → Yields m Q Any
        → Traced (on_rest m) Q
    unfolding on_rest
    rest-Traced Q m y = record {
      traced = λ e. (no_call e.database, rest-IsOutcome Q e (m e.rest) (y.yields e.rest));
    }

    -- A call of the repository.
    pub repo-Traced :
        {A : Type 0} (m : Action Database RepoError A) (c : RepoCall)
        → IsLifecycleCall c
        → ((db : Database) → run_call vanished c db ≡ (m db).1)
        → Traced (on_repo m) Any
    unfolding on_repo
    repo-Traced m c q same = record {
      traced = λ e. (one_call c e.database _ q (rw (same e.database) (no_call _)), tt);
    }
