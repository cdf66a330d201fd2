-- ===== src/Services/CacheClient/Tests.antt =====
-- A cache whose first command fails.
use text2image.Base.{◌≡◌, refl, pos, true, false, some, [], ◌∷◌}
use text2image.Services.Redis.Memory.{Memory, memory, empty_memory}
use text2image.Services.CacheClient.{CacheClient}
use text2image.Services.CacheClient.Laws.{
  get_call, del_call, bump_call, run_cache_call, run_cache_calls, run_cache_calls-failed,
}

abbrev failing_cache : CacheClient Memory
failing_cache = record {
  link = record {
    server_state = empty_memory;
    available = true;
    config = record { task_queue_key = []; lease_key_prefix = [] };
    redis_events = record { elapse = λ s. s; redis_fault = some [] } ∷ [];
  };
  cache_available = true;
  key_prefix = 112 ∷ [];
  version_key_ttl = pos 60;
}

run_cache_calls-failed_example :
    let off = run_cache_call memory (get_call (107 ∷ [])) failing_cache in
    (off.cache_available ≡ false)
    × (run_cache_calls memory (del_call [] ∷ bump_call [] [] ∷ []) off ≡ off)
run_cache_calls-failed_example =
    run_cache_calls-failed memory (get_call (107 ∷ [])) (del_call [] ∷ bump_call [] [] ∷ [])
      failing_cache ([], refl)
