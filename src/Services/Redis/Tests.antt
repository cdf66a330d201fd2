-- ===== src/Services/Redis/Tests.antt =====
-- The theorems about the queue and the leases at work on the server in memory.
use text2image.Base.{◌≡◌, ◌≢◌, refl, pos, true, false, none, [], ◌∷◌, ok, Text, arith}
use text2image.Services.Redis.{RedisConfig}
use text2image.Services.Redis.Queue.{rebuild_task_queue, dequeue_task}
use text2image.Services.Redis.Lease.{acquire_lease, renew_lease, release_lease}
use text2image.Services.Redis.Memory.{memory, memory_server, empty_memory}
use text2image.Services.Redis.Laws.{
  connected, drain, acquire_lease-exclusive, rebuild_task_queue-drain,
}

abbrev sample_config : RedisConfig
sample_config = record { task_queue_key = 113 ∷ []; lease_key_prefix = 108 ∷ [] }

abbrev first_worker : Text
first_worker = 119 ∷ 49 ∷ []

abbrev second_worker : Text
second_worker = 119 ∷ 50 ∷ []

workers_differ : second_worker ≢ first_worker
workers_differ e = ground arith

acquire_lease-exclusive_example :
    let granted =
      acquire_lease memory (pos 5) first_worker (pos 60) (connected sample_config empty_memory) in
    let c = granted.1 in
    (granted.0 ≡ ok true)
    × ((u : Text) → acquire_lease memory (pos 5) u (pos 60) c ≡ (ok false, c))
    × (renew_lease memory (pos 5) second_worker (pos 60) c ≡ (ok false, c))
    × (release_lease memory (pos 5) second_worker c ≡ (ok false, c))
    × ((renew_lease memory (pos 5) first_worker (pos 60) c).0 ≡ ok true)
    × ((release_lease memory (pos 5) first_worker c).0 ≡ ok true)
    × ((acquire_lease memory
          (pos 5)
          second_worker
          (pos 60)
          (release_lease memory (pos 5) first_worker c).1).0
        ≡ ok true)
acquire_lease-exclusive_example =
    acquire_lease-exclusive memory memory_server sample_config empty_memory (pos 5) first_worker
      second_worker (pos 60) (pos 60) workers_differ refl

rebuild_task_queue-drain_example :
    let rebuilt =
      rebuild_task_queue memory (pos 3 ∷ pos 12 ∷ []) (connected sample_config empty_memory) in
    let drained = drain memory 2 rebuilt.1 in
    (rebuilt.0 ≡ ok tt)
    × (drained.0 ≡ ok (pos 3 ∷ pos 12 ∷ []))
    × ((dequeue_task memory drained.1).0 ≡ ok none)
rebuild_task_queue-drain_example =
    rebuild_task_queue-drain memory memory_server sample_config (pos 3 ∷ pos 12 ∷ []) empty_memory
      (omega arith, (omega arith, tt))
