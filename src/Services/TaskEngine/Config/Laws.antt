-- ===== src/Services/TaskEngine/Config/Laws.antt =====
-- The bounds of the configuration of Backend/src/services/task_engine.cpp.
use text2image.Base.{◌*◌, ◌≤◌, ℤ, pos, pos_part, ◌≤ℤ◌, Option, none, some, Result, ok, err, arith}
use text2image.Services.Effects.{Exception}
use text2image.Services.Yields.{Preserves, bind-Preserves}
use text2image.Services.TaskEngine.{TaskEngineConfig}
use text2image.Services.TaskEngine.Config.{
  EngineSettings, default_config, at_least, assigned, assign, read_workers, read_poll, read_lease,
  read_retries, read_settings, load_task_engine_config, lease_renew_interval,
}

-- The members are in their bounds, and the interval of renewals is at most half a lease.
abbrev pub IsSane : TaskEngineConfig → Type 0
IsSane c =
    (pos 0 ≤ℤ c.workers)
    × (pos 100 ≤ℤ c.poll_interval_ms)
    × (pos 30 ≤ℤ c.lease_seconds)
    × (pos 0 ≤ℤ c.max_retries)
    × (lease_renew_interval c.lease_seconds * 2 ≤ pos_part c.lease_seconds)

at_least-bound : (bound n : ℤ) → bound ≤ℤ at_least bound n
at_least-bound bound n = ground arith

renew_in_time : (n : ℤ) → pos 30 ≤ℤ n → lease_renew_interval n * 2 ≤ pos_part n
renew_in_time n l = ground arith

assigned-IsSane :
    {A : Type 0} (write : A → TaskEngineConfig → TaskEngineConfig)
    → ((a : A) (c : TaskEngineConfig) → IsSane c → IsSane (write a c))
    → (c : TaskEngineConfig) (o : Result Exception A) → IsSane c
    → IsSane (assigned write c o).1
assigned-IsSane write h c (ok a) s = h a c s
assigned-IsSane write h c (err e) s = s

-- A statement that sets a member to a bounded value.
assign-IsSane :
    {A : Type 0} (value : TaskEngineConfig → Result Exception A)
    (write : A → TaskEngineConfig → TaskEngineConfig)
    → ((a : A) (c : TaskEngineConfig) → IsSane c → IsSane (write a c))
    → Preserves IsSane (assign value write)
assign-IsSane value write h = record { preserves = λ c s. assigned-IsSane write h c (value c) s }

read_settings-IsSane : (j : EngineSettings) → Preserves IsSane (read_settings j)
unfolding read_settings
read_settings-IsSane j =
    bind-Preserves IsSane (read_workers j) _
      (assign-IsSane _ _ λ n c s. (at_least-bound (pos 0) n, s.1, s.2, s.3, s.4))
      λ u.
        bind-Preserves IsSane (read_poll j) _
          (assign-IsSane _ _ λ n c s. (s.0, at_least-bound (pos 100) n, s.2, s.3, s.4))
          λ u.
            bind-Preserves IsSane (read_lease j) _
              (assign-IsSane _ _
                λ n c s. let l = at_least-bound (pos 30) n in (s.0, s.1, l, s.3, renew_in_time _ l))
              λ u.
                bind-Preserves IsSane (read_retries j) _
                  (assign-IsSane _ _ λ n c s. (s.0, s.1, s.2, at_least-bound (pos 0) n, s.4))
                  λ u. assign-IsSane _ _ λ t c s. s

default_config-IsSane : IsSane default_config
default_config-IsSane = ground arith

-- Whatever the configuration holds, and wherever reading it throws, the engine runs with a natural
-- number of workers and of retries, a poll interval of at least 100 milliseconds, a lease of at least
-- 30 seconds, and an interval between renewals of at most half the lease.
pub load_task_engine_config-IsSane :
    (file : Result Exception (Option EngineSettings)) → IsSane (load_task_engine_config file)
unfolding load_task_engine_config
load_task_engine_config-IsSane (err e) = default_config-IsSane
load_task_engine_config-IsSane (ok none) = default_config-IsSane
load_task_engine_config-IsSane (ok (some j)) =
    (read_settings-IsSane j).preserves default_config default_config-IsSane
