-- ===== src/Services/TaskEngine/Tests.antt =====
-- The theorems about the task engine at work on the sample engine.
use text2image.Database.Session.{Database}
use text2image.Base.{ℕ, refl, pos, some, none, false, [], ◌∷◌, bytes, eqb, arith}
use text2image.Database.ImageRepo.Ownership.{idle}
use text2image.Services.CacheKeys.{decimal}
use text2image.Services.HealthGate.{
  decide_for_generate, defer_or_fail, is_healthy_status, busy_generation_conflicts,
}
use text2image.Services.Redis.Laws.{connected}
use text2image.Services.Generation.Health.{check_health, health_of_body, read_health, health_status}
use text2image.Services.Generation.Samples.{sample_model-Fails}
use text2image.Services.TaskEngine.{Engine}
use text2image.Services.TaskEngine.Progress.{IsFair, IsDone}
use text2image.Services.TaskEngine.Liveness.{worker_turn-IsDone}
use text2image.Database.Session.Keeps.{IsGood}
use text2image.Database.Invariant.{IsValid}
use text2image.Database.Samples.{
  sample_table, sample_time, waiting_row, sample_database, sample_database-IsGood, vanished_message,
  second_worker,
}
use text2image.Services.Redis.Memory.{Memory, memory, memory_server, empty_memory}
use text2image.Services.TaskEngine.Worker.{worker_turn}
use text2image.Services.TaskEngine.Scanner.{scanner_turn}
use text2image.Services.Samples.{sample_ports, sample_world}
use text2image.Services.Wiring.{over_database}
use text2image.Services.Wiring.Served.{Request, create_request, serve}
use text2image.Services.TaskEngine.Runs.{Runs}
use text2image.Services.TaskEngine.Safety.{
  begin, works, scans, serves, Reaches-Runs, Reaches-IsValid,
}
use text2image.Services.TaskEngine.Samples.{
  sample_engine_ports, engine_config, engine_on, redis_config,
}

-- A request with the prompt "cat" under every key.
abbrev cat_request : Request
cat_request =
    create_request (pos 7)
      (record {
        string_at = λ k. some (b'c' ∷ b'a' ∷ b't' ∷ []);
        integer_at = λ k. none;
        number_at = λ k. none;
      })
      false

abbrev after_request : Database → Database
after_request db =
    (serve (over_database vanished_message sample_ports) cat_request (db, sample_world)).0

Reaches-Runs_example :
    let e = engine_on sample_database in
    let e' = (worker_turn memory sample_engine_ports engine_config 1 second_worker e).1 in
    Runs vanished_message sample_database
      (after_request (scanner_turn memory sample_engine_ports e').1.database)
Reaches-Runs_example =
    Reaches-Runs vanished_message memory sample_engine_ports sample_ports engine_config
      (engine_on sample_database) _
      (serves _ cat_request sample_world (scans _ (works _ 1 second_worker begin)))

Reaches-IsValid_example :
    let e = engine_on sample_database in
    let e' = (worker_turn memory sample_engine_ports engine_config 1 second_worker e).1 in
    IsGood IsValid (after_request (scanner_turn memory sample_engine_ports e').1.database)
Reaches-IsValid_example =
    Reaches-IsValid vanished_message memory sample_engine_ports sample_ports engine_config
      (engine_on sample_database) _
      (serves _ cat_request sample_world (scans _ (works _ 1 second_worker begin)))
      sample_database-IsGood

-- The queue holds the id of the waiting task.
abbrev queued_memory : Memory
queued_memory = record empty_memory { lists = λ k. decimal (pos 1) ∷ [] }

abbrev queued_engine : Engine Memory ℕ
queued_engine = record (engine_on (idle sample_table sample_time)) {
  redis = connected redis_config queued_memory;
}

sample_engine_ports-IsFair : IsFair sample_engine_ports
unfolding check_health health_of_body read_health health_status decide_for_generate defer_or_fail
    is_healthy_status busy_generation_conflicts bytes eqb
sample_engine_ports-IsFair = record {
  cache_calm = λ key. record { yields = λ w. tt };
  version_calm = λ ns identifier. record { yields = λ w. tt };
  depth_calm = record { yields = λ w. tt };
  status_calm = λ s. record { yields = λ w. tt };
  publish_calm = λ g. record { yields = λ w. tt };
  model_calm = sample_model-Fails;
  model_ready = λ retries. record { yields = λ w. refl };
}

worker_turn-IsDone_example :
    IsDone
      (pos 1)
      (worker_turn memory sample_engine_ports engine_config 0 second_worker
        queued_engine).1.database
worker_turn-IsDone_example =
    worker_turn-IsDone memory memory_server sample_engine_ports engine_config
      sample_engine_ports-IsFair sample_table sample_time second_worker (pos 1) waiting_row refl
      refl redis_config queued_memory [] queued_engine (omega arith) refl refl refl refl
