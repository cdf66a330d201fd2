-- ===== src/Services/Redis/Lease.antt =====
-- The leases of Backend/src/services/redis_client.cpp: one key for each task, with the worker that
-- holds it.
use text2image.Base.{
  ℤ, Bool, true, false, Option, none, some, ◌++◌, Text, eqb, Action, if◌then◌else◌,
}
use text2image.Services.Effects.{Exception}
use text2image.Services.CacheKeys.{decimal}
use text2image.Services.Redis.{Commands, RedisConnection, RedisConfig, run_command, catch_redis}

unfoldable pub lease_key : RedisConfig → ℤ → Text
unfolding decimal
lease_key config task_id = config.lease_key_prefix ++ decimal task_id

-- `redis.call('GET', KEYS[1]) == ARGV[1]`
abbrev pub is_owner : Option Text → Text → Bool
is_owner none worker_id = false
is_owner (some owner) worker_id = eqb owner worker_id

module _ {S : Type 0} (r : Commands S) where
  unfoldable pub acquire_lease : ℤ → Text → ℤ → Action (RedisConnection S) Exception Bool
  unfolding run_command lease_key
  acquire_lease task_id worker_id lease_seconds c =
      catch_redis false
        (run_command (r.set_nx_ex (lease_key c.config task_id) worker_id lease_seconds)) c

  abbrev pub renew_script : Text → Text → ℤ → S → Bool × S
  renew_script key worker_id lease_seconds s =
      if is_owner (r.get_value key s) worker_id
      then (true, r.expire key lease_seconds s)
      else (false, s)

  unfoldable pub renew_lease : ℤ → Text → ℤ → Action (RedisConnection S) Exception Bool
  unfolding run_command lease_key
  renew_lease task_id worker_id lease_seconds c =
      catch_redis false
        (run_command (renew_script (lease_key c.config task_id) worker_id lease_seconds)) c

  abbrev pub release_script : Text → Text → S → Bool × S
  release_script key worker_id s =
      if is_owner (r.get_value key s) worker_id then r.del key s else (false, s)

  unfoldable pub release_lease : ℤ → Text → Action (RedisConnection S) Exception Bool
  unfolding run_command lease_key
  release_lease task_id worker_id c =
      catch_redis false (run_command (release_script (lease_key c.config task_id) worker_id)) c

  unfoldable pub force_release_lease : ℤ → Action (RedisConnection S) Exception Bool
  unfolding run_command lease_key
  force_release_lease task_id c =
      catch_redis false (run_command (r.del (lease_key c.config task_id))) c

  unfoldable pub lease_exists : ℤ → Action (RedisConnection S) Exception Bool
  unfolding run_command lease_key
  lease_exists task_id c =
      catch_redis false (run_command (λ s. (r.exists_key (lease_key c.config task_id) s, s))) c
