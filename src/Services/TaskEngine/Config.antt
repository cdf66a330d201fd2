-- ===== src/Services/TaskEngine/Config.antt =====
-- `loadTaskEngineConfig` and `leaseRenewInterval` of Backend/src/services/task_engine.cpp.
pub mod Laws
mod Tests
use text2image.Base.{
  ℕ, ◌/◌, ◌*◌, ◌≤◌, ◌<◌, ltb, ℤ, pos, pos_part, ltb_ℤ, ◌≤ℤ◌, Option, none, some, Text, bytes,
  Result, ok, err, Action, ◌>>=◌, ◌>>◌, pure, if◌then◌else◌, arith,
}
use text2image.Services.Effects.{Exception}
use text2image.Services.TaskEngine.{TaskEngineConfig}

abbrev pub default_config : TaskEngineConfig
default_config = record {
  workers = pos 1;
  poll_interval_ms = pos 500;
  lease_seconds = pos 900;
  max_retries = pos 3;
  worker_prefix = bytes "backend-worker";
}

-- `value(key, default)` on the object `task_engine`, which throws on a member of another kind.
pub record EngineSettings : Type 0 where
  pub integer_setting : Text → ℤ → Result Exception ℤ
  pub text_setting : Text → Text → Result Exception Text

abbrev pub at_least : ℤ → ℤ → ℤ
at_least bound n = if ltb_ℤ n bound then bound else n

abbrev pub assigned :
    {A : Type 0}
    → (A → TaskEngineConfig → TaskEngineConfig)
    → TaskEngineConfig
    → Result Exception A
    → Result Exception (Unit {0}) × TaskEngineConfig
assigned write c (ok a) = (ok tt, write a c)
assigned write c (err e) = (err e, c)

-- `config.member = bounded(value(key, config.member));`
abbrev pub assign :
    {A : Type 0}
    → (TaskEngineConfig → Result Exception A)
    → (A → TaskEngineConfig → TaskEngineConfig)
    → Action TaskEngineConfig Exception (Unit {0})
assign value write c = assigned write c (value c)

module _ (j : EngineSettings) where
  abbrev pub read_workers : Action TaskEngineConfig Exception (Unit {0})
  read_workers =
      assign (λ c. j.integer_setting (bytes "workers") c.workers)
        (λ n c. record c { workers = at_least (pos 0) n })

  abbrev pub read_poll : Action TaskEngineConfig Exception (Unit {0})
  read_poll =
      assign (λ c. j.integer_setting (bytes "poll_interval_ms") c.poll_interval_ms)
        (λ n c. record c { poll_interval_ms = at_least (pos 100) n })

  abbrev pub read_lease : Action TaskEngineConfig Exception (Unit {0})
  read_lease =
      assign (λ c. j.integer_setting (bytes "lease_seconds") c.lease_seconds)
        (λ n c. record c { lease_seconds = at_least (pos 30) n })

  abbrev pub read_retries : Action TaskEngineConfig Exception (Unit {0})
  read_retries =
      assign (λ c. j.integer_setting (bytes "max_retries") c.max_retries)
        (λ n c. record c { max_retries = at_least (pos 0) n })

  abbrev pub read_prefix : Action TaskEngineConfig Exception (Unit {0})
  read_prefix =
      assign (λ c. j.text_setting (bytes "worker_prefix") c.worker_prefix)
        (λ t c. record c { worker_prefix = t })

  -- What throws leaves the members before it set.
  unfoldable pub read_settings : Action TaskEngineConfig Exception (Unit {0})
  read_settings = do read_workers; read_poll; read_lease; read_retries; read_prefix

-- What the configuration file holds, if it can be read at all.
unfoldable pub load_task_engine_config : Result Exception (Option EngineSettings) → TaskEngineConfig
unfolding read_settings
load_task_engine_config (err e) = default_config
load_task_engine_config (ok none) = default_config
load_task_engine_config (ok (some j)) = (read_settings j default_config).1

-- Seconds.
abbrev pub lease_renew_interval : ℤ → ℕ
lease_renew_interval lease_seconds =
    let half = pos_part lease_seconds / 2 in if ltb half 1 then 1 else half
