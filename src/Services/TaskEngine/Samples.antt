-- ===== src/Services/TaskEngine/Samples.antt =====
-- An engine over the sample table, a server in memory and the sample model service.
use text2image.Base.{ℕ, pos, true, ok, [], ◌∷◌}
use text2image.Database.Session.{Database}
use text2image.Services.Redis.{RedisConfig}
use text2image.Services.Redis.Memory.{Memory, empty_memory}
use text2image.Services.Redis.Laws.{connected}
use text2image.Services.Generation.Samples.{sample_model}
use text2image.Services.TaskEngine.{Engine, EnginePorts, TaskEngineConfig}

abbrev pub sample_engine_ports : EnginePorts ℕ
sample_engine_ports = record {
  cache_del = λ key w. (ok tt, w);
  bump_version = λ ns identifier w. (ok tt, w);
  record_task_status = λ status w. (ok tt, w);
  increment_worker_queue_depth = λ w. (ok tt, w);
  decrement_worker_queue_depth = λ w. (ok tt, w);
  set_worker_queue_depth = λ n w. (ok tt, w);
  publish_task_updated = λ g w. (ok tt, w);
  notify_workers = λ w. (ok tt, w);
  wait_for = λ n w. (ok tt, w);
  model = sample_model;
}

abbrev pub redis_config : RedisConfig
redis_config = record { task_queue_key = 113 ∷ []; lease_key_prefix = 108 ∷ [] }

abbrev pub engine_config : TaskEngineConfig
engine_config = record {
  workers = pos 2;
  poll_interval_ms = pos 500;
  lease_seconds = pos 60;
  max_retries = pos 3;
  worker_prefix = 119 ∷ [];
}

abbrev pub engine_on : Database → Engine Memory ℕ
engine_on db = record {
  database = db;
  redis = connected redis_config empty_memory;
  rest = 0;
  started = true;
  threads = [];
}
