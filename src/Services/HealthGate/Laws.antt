-- ===== src/Services/HealthGate/Laws.antt =====
-- What the gate decides.
use text2image.Base.{
  ℤ, pos, ◌≤ℤ◌, ◌<ℤ◌, ◌≡◌, ◌⊎◌, true, String, Text, lower, is_empty, eqb, bytes, arith,
}
use text2image.Services.HealthGate.{
  ImageHealthResult, proceed, defer, fail_task, defer_or_fail, busy_generation_conflicts,
  is_healthy_status, decide_for_generate,
}

abbrev Spells : Text → String → Type 0
Spells text word = eqb (lower text) (bytes word) ≡ true

-- Whether the model service can take a generation now: it is well, or it is busy with nothing, or
-- busy with fewer generations than it runs at once.
abbrev pub CanServe : ImageHealthResult → Type 0
CanServe health =
    (Spells health.status "healthy" ⊎ (Spells health.status "ok" ⊎ Spells health.status "success"))
    ⊎ (Spells health.status "busy"
        × ((is_empty (lower health.active_kind) ≡ true)
            ⊎ (Spells health.active_kind "none"
                ⊎ ((pos 0 <ℤ health.max_concurrent_generations)
                    × (health.active_generations <ℤ health.max_concurrent_generations)))))

-- A decision to defer is made only below the attempt budget, and waits 5 or 30 seconds.
pub decide-defer :
    (health : ImageHealthResult) (retry_count : ℤ)
    → (decide_for_generate health retry_count).action ≡ defer
    → (retry_count <ℤ pos 9)
      × (((decide_for_generate health retry_count).backoff ≡ 5)
          ⊎ ((decide_for_generate health retry_count).backoff ≡ 30))
unfolding decide_for_generate defer_or_fail
decide-defer health retry_count h = ground arith

-- A task fails at the gate only when its attempts are used up.
decide-fail_task :
    (health : ImageHealthResult) (retry_count : ℤ)
    → (decide_for_generate health retry_count).action ≡ fail_task
    → pos 9 ≤ℤ retry_count
unfolding decide_for_generate defer_or_fail
decide-fail_task health retry_count h = ground arith

-- The gate lets a task through only if the service reports itself healthy, or busy with no kind of
-- work, or busy with fewer generations than the positive number that it runs at once.
pub decide-proceed :
    (health : ImageHealthResult) (retry_count : ℤ)
    → (decide_for_generate health retry_count).action ≡ proceed
    → CanServe health
unfolding decide_for_generate defer_or_fail is_healthy_status busy_generation_conflicts
decide-proceed health retry_count h = ground arith
