-- ===== src/Services/Redis/Queue.antt =====
-- The task queue of Backend/src/services/redis_client.cpp: ids enter at the head of a list and are
-- taken from its tail.
use text2image.Base.{
  ltb, ℤ, Bool, Option, none, some, List, [], ◌∷◌, Text, map, Result, ok, err, Action, ◌>>=◌, pure,
}
use text2image.Services.Effects.{Exception}
use text2image.Services.CacheKeys.{decimal}
use text2image.Services.Redis.{Commands, RedisConnection, run_command, catch_redis, rethrow}
use text2image.Services.Redis.Numbers.{stoll}

module _ {S : Type 0} (r : Commands S) where
  unfoldable pub enqueue_task : ℤ → Action (RedisConnection S) Exception (Unit {0})
  unfolding run_command decimal
  enqueue_task task_id c =
      rethrow (run_command (λ s. (tt, r.lpush c.config.task_queue_key (decimal task_id) s))) c

  unfoldable pub push_all : Text → List Text → S → S
  push_all key [] s = s
  push_all key (value ∷ values) s = push_all key values (r.lpush key value s)

  -- The script of `rebuildTaskQueue`.
  abbrev pub rebuild_script : Text → List Text → S → S
  rebuild_script key values s = push_all key values (r.del key s).1

  unfoldable pub rebuild_task_queue : List ℤ → Action (RedisConnection S) Exception (Unit {0})
  unfolding run_command decimal push_all
  rebuild_task_queue task_ids c =
      rethrow
        (run_command (λ s. (tt, rebuild_script c.config.task_queue_key (map decimal task_ids) s))) c

  -- `std::stoll` is not guarded: what it throws is passed on.
  abbrev pub parsed_id : Option Text → Action (RedisConnection S) Exception (Option ℤ)
  parsed_id none = pure none
  parsed_id (some value) = λ c. (parsed (stoll value), c)
    where
      parsed : Result Exception ℤ → Result Exception (Option ℤ)
      parsed (ok id) = ok (some id)
      parsed (err e) = err e

  unfoldable pub dequeue_task : Action (RedisConnection S) Exception (Option ℤ)
  unfolding run_command stoll
  dequeue_task c =
      (do
        popped ← catch_redis none (run_command (r.brpop c.config.task_queue_key))
        parsed_id popped)
        c

  unfoldable pub remove_from_queue : ℤ → Action (RedisConnection S) Exception Bool
  unfolding run_command decimal
  remove_from_queue task_id c =
      (do
        removed ← catch_redis 0 (run_command (r.lrem c.config.task_queue_key (decimal task_id)))
        pure (ltb 0 removed))
        c
