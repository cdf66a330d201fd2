-- ===== src/Services/Redis.antt =====
-- Backend/src/services/redis_client.cpp: the task queue, the leases and the keyed values that the
-- backend keeps in Redis. The server is a parameter: what its commands do to its state, and, in
-- `IsServer`, what Redis documents of them. Between two commands time passes, keys expire and other
-- clients write, and a command may fail: the schedule of a connection says what happens before each.
pub mod Queue
pub mod Lease
pub mod Numbers
pub mod Laws
pub mod Memory
mod Tests
use text2image.Base.{
  ℕ, ℤ, Bool, true, false, ◌&&◌, Option, none, some, List, [], ◌∷◌, ◌++◌, Text, eqb, Result, ok,
  err, Action, if◌then◌else◌,
}
use text2image.Services.Effects.{Exception, std_error}

-- The commands, as far as the client uses them. `brpop` takes the value at the tail, if there is one
-- before the timeout.
pub record Commands (S : Type 0) : Type 0 where
  pub lpush : Text → Text → S → S
  pub brpop : Text → S → Option Text × S
  pub lrem : Text → Text → S → ℕ × S
  pub get_value : Text → S → Option Text
  pub set_nx_ex : Text → Text → ℤ → S → Bool × S
  pub setex : Text → Text → ℤ → S → S
  pub del : Text → S → Bool × S
  pub expire : Text → ℤ → S → S
  pub exists_key : Text → S → Bool
  pub sadd : Text → Text → S → S
  pub srem : Text → Text → S → S
  pub smembers : Text → S → List Text
  -- An error where the value is no number.
  pub incr : Text → S → Result Text ℤ × S

-- What happens before a command runs.
pub record RedisEvent (S : Type 0) : Type 0 where
  pub elapse : S → S
  pub redis_fault : Option Text

-- The members of `RedisConfig` that the operations use.
pub record RedisConfig : Type 0 where
  pub task_queue_key : Text
  pub lease_key_prefix : Text

-- The client: `available` is `config_.enabled && impl_`.
pub record RedisConnection (S : Type 0) : Type 0 where
  pub server_state : S
  pub available : Bool
  pub config : RedisConfig
  pub redis_events : List (RedisEvent S)

abbrev pub redis_event_of : {S : Type 0} → List (RedisEvent S) → RedisEvent S
redis_event_of [] = record { elapse = λ s. s; redis_fault = none }
redis_event_of (e ∷ es) = e

abbrev pub redis_events_after : {S : Type 0} → List (RedisEvent S) → List (RedisEvent S)
redis_events_after [] = []
redis_events_after (e ∷ es) = es

abbrev pub answer :
    {S A : Type 0}
    → Option Text
    → (S → A × S)
    → RedisConnection S
    → Result Text A × RedisConnection S
answer (some what) command c = (err what, c)
answer none command c =
    (ok (command c.server_state).0, record c { server_state = (command c.server_state).1 })

-- A command, or a script, which the server runs as a whole. It fails with an `sw::redis::Error`.
unfoldable pub run_command : {S A : Type 0} → (S → A × S) → Action (RedisConnection S) Text A
run_command command c =
    let e = redis_event_of c.redis_events in
    answer e.redis_fault command (record c {
      server_state = e.elapse c.server_state;
      redis_events = redis_events_after c.redis_events;
    })

abbrev pub or_value : {S A : Type 0} → A → Result Text A × S → Result Exception A × S
or_value a (ok b, c) = (ok b, c)
or_value a (err what, c) = (ok a, c)

-- `catch (const sw::redis::Error&) { return value; }`
abbrev pub catch_redis : {S A : Type 0} → A → Action S Text A → Action S Exception A
catch_redis a m c = or_value a (m c)

abbrev pub as_exception : {S A : Type 0} → Result Text A × S → Result Exception A × S
as_exception (ok a, c) = (ok a, c)
as_exception (err what, c) = (err (std_error what), c)

-- An error that is passed on.
abbrev pub rethrow : {S A : Type 0} → Action S Text A → Action S Exception A
rethrow m c = as_exception (m c)

abbrev pub is_available : {S : Type 0} → Action (RedisConnection S) Exception Bool
is_available c = (ok c.available, c)

module _ {S : Type 0} (r : Commands S) where
  -- A failed ping turns the client off for the rest of the process.
  abbrev pinged :
      Result Text (Unit {0}) × RedisConnection S → Result Exception Bool × RedisConnection S
  pinged (ok _, c) = (ok true, c)
  pinged (err what, c) = (ok false, record c { available = false })

  unfoldable pub ping : Action (RedisConnection S) Exception Bool
  unfolding run_command
  ping c =
      let answered = pinged (run_command (λ s. (tt, s)) c) in
      if c.available then answered else (ok false, c)

  abbrev pub fetched_and_deleted : Text → Option Text → S → Option Text × S
  fetched_and_deleted key none s = (none, s)
  fetched_and_deleted key (some value) s = (some value, (r.del key s).1)

  abbrev pub get_del_script : Text → S → Option Text × S
  get_del_script key s = fetched_and_deleted key (r.get_value key s) s

  unfoldable pub set_ex : Text → Text → ℤ → Action (RedisConnection S) Exception (Unit {0})
  unfolding run_command
  set_ex key value ttl = rethrow (run_command (λ s. (tt, r.setex key value ttl s)))

  unfoldable pub get_key : Text → Action (RedisConnection S) Exception (Option Text)
  unfolding run_command
  get_key key = rethrow (run_command (λ s. (r.get_value key s, s)))

  unfoldable pub get_del : Text → Action (RedisConnection S) Exception (Option Text)
  unfolding run_command
  get_del key = rethrow (run_command (get_del_script key))

  unfoldable pub del_key : Text → Action (RedisConnection S) Exception Bool
  unfolding run_command
  del_key key = rethrow (run_command (r.del key))

  unfoldable pub set_add : Text → Text → Action (RedisConnection S) Exception (Unit {0})
  unfolding run_command
  set_add key value = rethrow (run_command (λ s. (tt, r.sadd key value s)))

  unfoldable pub set_remove : Text → Text → Action (RedisConnection S) Exception (Unit {0})
  unfolding run_command
  set_remove key value = rethrow (run_command (λ s. (tt, r.srem key value s)))

  unfoldable pub set_members : Text → Action (RedisConnection S) Exception (List Text)
  unfolding run_command
  set_members key = rethrow (run_command (λ s. (r.smembers key s, s)))

  unfoldable pub expire_key : Text → ℤ → Action (RedisConnection S) Exception (Unit {0})
  unfolding run_command
  expire_key key ttl = rethrow (run_command (λ s. (tt, r.expire key ttl s)))
