-- ===== src/Services/CacheClient/Laws.antt =====
-- A cache whose server failed once is off for good.
use text2image.Base.{
  ◌≡◌, refl, ◌∙◌, ap, ℤ, pos, ◌>>=◌, arith, if◌then◌else◌, Bool, true, false, Option, none, some,
  List, [], ◌∷◌, Text, Result, err, Action,
}
use text2image.Services.Effects.{Exception, std_error}
use text2image.Services.Redis.{
  Commands, RedisConnection, run_command, redis_event_of, redis_events_after, rethrow,
}
use text2image.Services.CacheClient.{
  CacheClient, guarded, caught_failure, bump_script, version_key, cache_key, get_body, setex_body,
  del_body, bump_body, version_body, answered_by, version_of, cache_get, cache_setex, cache_del,
  bump_version, get_version,
}

-- A call of the cache, with its arguments.
pub data CacheCall : Type 0 where
  get_call : Text → CacheCall
  setex_call : Text → Text → ℤ → CacheCall
  del_call : Text → CacheCall
  bump_call : Text → Text → CacheCall
  version_call : Text → Text → CacheCall

module _ {S : Type 0} (r : Commands S) where
  -- The client after a call.
  unfoldable pub run_cache_call : CacheCall → CacheClient S → CacheClient S
  run_cache_call (get_call key) c = (cache_get r key c).1
  run_cache_call (setex_call key value ttl) c = (cache_setex r key value ttl c).1
  run_cache_call (del_call key) c = (cache_del r key c).1
  run_cache_call (bump_call ns identifier) c = (bump_version r ns identifier c).1
  run_cache_call (version_call ns identifier) c = (get_version r ns identifier c).1

  unfoldable pub run_cache_calls : List CacheCall → CacheClient S → CacheClient S
  unfolding run_cache_call
  run_cache_calls [] c = c
  run_cache_calls (call ∷ calls) c = run_cache_calls calls (run_cache_call call c)

  if_false : {A : Type 0} (b : Bool) (x y : A) → b ≡ false → (if b then x else y) ≡ y
  if_false true x y e = ground arith
  if_false false x y e = refl

  guarded-off :
      {A : Type 0} (a : A) (m : Action (RedisConnection S) Exception A) (c : CacheClient S)
      → c.cache_available ≡ false
      → (guarded a m c).1 ≡ c
  unfolding guarded
  guarded-off a m c off =
      ap (λ x. x.1) (if_false c.cache_available (caught_failure a c (m c.link)) (a, c) off)

  off_call :
      (call : CacheCall) (c : CacheClient S) → c.cache_available ≡ false → run_cache_call call c ≡ c
  unfolding run_cache_call cache_get cache_setex cache_del bump_version get_version
  off_call (get_call key) c off = guarded-off none (get_body r key c) c off
  off_call (setex_call key value ttl) c off = guarded-off false (setex_body r key value ttl c) c off
  off_call (del_call key) c off = guarded-off false (del_body r key c) c off
  off_call (bump_call ns identifier) c off = guarded-off none (bump_body r ns identifier c) c off
  off_call (version_call ns identifier) c off =
      guarded-off (pos 0) (version_body r ns identifier c) c off

  off_calls :
      (calls : List CacheCall) (c : CacheClient S)
      → c.cache_available ≡ false
      → run_cache_calls calls c ≡ c
  unfolding run_cache_calls
  off_calls [] c off = refl
  off_calls (call ∷ calls) c off =
      ap (run_cache_calls calls) (off_call call c off) ∙ off_calls calls c off

  -- The next command of this connection fails.
  abbrev pub NextFails : RedisConnection S → Type 0
  NextFails link = (what : Text) × ((redis_event_of link.redis_events).redis_fault ≡ some what)

  abbrev Failing :
      {A : Type 0} → Action (RedisConnection S) Exception A → RedisConnection S → Type 0
  Failing m link = (e : Exception) × (link' : RedisConnection S) × (m link ≡ (err e, link'))

  command-Failing :
      {A : Type 0} (f : S → A × S) (link : RedisConnection S)
      → NextFails link
      → Failing (rethrow (run_command f)) link
  unfolding run_command
  command-Failing f link (what, fault) =
      let happened : RedisConnection S = record link {
        server_state = (redis_event_of link.redis_events).elapse link.server_state;
        redis_events = redis_events_after link.redis_events;
      } in
      (std_error what, happened, rw fault refl)

  then-Failing :
      {A B : Type 0} (m : Action (RedisConnection S) Exception A)
      (f : A → Action (RedisConnection S) Exception B) (link : RedisConnection S)
      → Failing m link
      → Failing (m >>= f) link
  then-Failing m f link (e, link', failed) = (e, link', rw failed refl)

  caught-off :
      {A : Type 0} (a : A) (c : CacheClient S) (o : Result Exception A × RedisConnection S)
      (e : Exception) (link' : RedisConnection S)
      → o ≡ (err e, link')
      → (caught_failure a c o).1.cache_available ≡ false
  caught-off a c o e link' failed = ap (λ x. (caught_failure a c x).1.cache_available) failed

  if_off :
      {A : Type 0} (b : Bool) (a : A) (x : A × CacheClient S) (c : CacheClient S)
      → c.cache_available ≡ b
      → x.1.cache_available ≡ false
      → (if b then x else (a, c)).1.cache_available ≡ false
  if_off true a x c same off = off
  if_off false a x c same off = same

  guarded-Failing :
      {A : Type 0} (a : A) (m : Action (RedisConnection S) Exception A) (c : CacheClient S)
      → Failing m c.link
      → (guarded a m c).1.cache_available ≡ false
  unfolding guarded
  guarded-Failing a m c (e, link', failed) =
      if_off c.cache_available a (caught_failure a c (m c.link)) c refl
        (caught-off a c (m c.link) e link' failed)

  failed_call :
      (call : CacheCall) (c : CacheClient S)
      → NextFails c.link
      → (run_cache_call call c).cache_available ≡ false
  unfolding run_cache_call cache_get cache_setex cache_del bump_version get_version
  failed_call (get_call key) c fails =
      guarded-Failing none (get_body r key c) c
        (command-Failing (λ s. (r.get_value (cache_key c key) s, s)) c.link fails)
  failed_call (setex_call key value ttl) c fails =
      guarded-Failing false (setex_body r key value ttl c) c
        (command-Failing (λ s. (true, r.setex (cache_key c key) value ttl s)) c.link fails)
  failed_call (del_call key) c fails =
      guarded-Failing false (del_body r key c) c
        (command-Failing (r.del (cache_key c key)) c.link fails)
  failed_call (bump_call ns identifier) c fails =
      let script = bump_script r (version_key c ns identifier) c.version_key_ttl in
      guarded-Failing none (bump_body r ns identifier c) c (
        then-Failing (rethrow (run_command script)) (answered_by r) c.link
          (command-Failing script c.link fails))
  failed_call (version_call ns identifier) c fails =
      let command : S → Option Text × S = λ s. (r.get_value (version_key c ns identifier) s, s) in
      guarded-Failing (pos 0) (version_body r ns identifier c) c (
        then-Failing (rethrow (run_command command)) (λ value. answered_by r (version_of r value))
          c.link (command-Failing command c.link fails))

  -- A cache is turned off by the first command that fails, whatever call made it: the calls after it
  -- send nothing to the server and change nothing.
  pub run_cache_calls-failed :
      (call : CacheCall) (calls : List CacheCall) (c : CacheClient S)
      → NextFails c.link
      → ((run_cache_call call c).cache_available ≡ false)
        × (run_cache_calls calls (run_cache_call call c) ≡ run_cache_call call c)
  run_cache_calls-failed call calls c fails =
      let off = failed_call call c fails in (off, off_calls calls (run_cache_call call c) off)
