-- ===== src/Services/RefreshTokens/RedisStore/Tests.antt =====
-- The Redis token store on the server in memory.
use text2image.Base.{◌≡◌, refl, pos, ok, none, some, [], ◌∷◌, Text, arith}
use text2image.Services.Redis.{RedisConfig}
use text2image.Services.Redis.Laws.{connected}
use text2image.Services.Redis.Memory.{memory, empty_memory, put_same}
use text2image.Services.RefreshTokens.RedisStore.{store_token, consume_token, revoke_token}
use text2image.Services.RefreshTokens.RedisStore.Cycle.{KeepsStrings, store_token-once}

abbrev sample_config : RedisConfig
sample_config = record { task_queue_key = 113 ∷ []; lease_key_prefix = 108 ∷ [] }

abbrev sample_token : Text
sample_token = 106 ∷ 116 ∷ 105 ∷ []

abbrev memory_strings : KeepsStrings memory
memory_strings = record {
  setex_value = λ k v t s l. put_same k _ s.values;
  del_removes = λ k s. put_same k _ s.values;
  sadd_keeps = λ j k v s. refl;
  srem_keeps = λ j k v s. refl;
  expire_keeps = λ j k t s l. refl;
}

store_token-once_example :
    let c =
      (store_token memory sample_token (pos 7) (pos 60) (connected sample_config empty_memory)).1 in
    let used = consume_token memory sample_token c in
    let gone = revoke_token memory sample_token c in
    (used.0 ≡ ok (some (pos 7)))
    × ((consume_token memory sample_token used.1).0 ≡ ok none)
    × (gone.0 ≡ ok tt)
    × ((consume_token memory sample_token gone.1).0 ≡ ok none)
store_token-once_example =
    store_token-once memory memory_strings sample_config sample_token (pos 7) (pos 60) empty_memory
      (omega arith)
