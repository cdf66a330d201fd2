-- ===== src/Services/Redis/Memory.antt =====
-- A server in memory to try the client on: keys hold lists, strings and sets in three maps, and
-- nothing expires.
use text2image.Base.{
  err, ◌≡◌, refl, ap, Bool, true, false, not, Option, none, some, List, [], ◌∷◌, Text, eqb,
  eqb_refl, keep, length, if◌then◌else◌, ◌-◌,
}
use text2image.Services.Redis.{Commands}
use text2image.Services.Redis.Laws.{IsServer, pop_last}

pub record Memory : Type 0 where
  pub lists : Text → List Text
  pub values : Text → Option Text
  pub sets : Text → List Text

abbrev pub empty_memory : Memory
empty_memory = record { lists = λ k. []; values = λ k. none; sets = λ k. [] }

abbrev put : {A : Type 0} → Text → A → (Text → A) → Text → A
put k a f j = if eqb j k then a else f j

abbrev is_some : {A : Type 0} → Option A → Bool
is_some none = false
is_some (some a) = true

abbrev set_if_free : Text → Text → Option Text → Memory → Bool × Memory
set_if_free k v (some w) s = (false, s)
set_if_free k v none s = (true, record s { values = put k (some v) s.values })

abbrev pub memory : Commands Memory
memory = record {
  lpush = λ k v s. record s { lists = put k (v ∷ s.lists k) s.lists };
  brpop = λ k s.
      ((pop_last (s.lists k)).0, record s { lists = put k (pop_last (s.lists k)).1 s.lists });
  lrem = λ k v s.
      let left = keep (λ x. not (eqb x v)) (s.lists k) in
      (length (s.lists k) - length left, record s { lists = put k left s.lists });
  get_value = λ k s. s.values k;
  set_nx_ex = λ k v t s. set_if_free k v (s.values k) s;
  setex = λ k v t s. record s { values = put k (some v) s.values };
  del = λ k s. (
    is_some (s.values k),
    record s { lists = put k [] s.lists; values = put k none s.values; sets = put k [] s.sets },
  );
  expire = λ k t s. s;
  exists_key = λ k s. is_some (s.values k);
  sadd = λ k v s. record s { sets = put k (v ∷ s.sets k) s.sets };
  srem = λ k v s. record s { sets = put k (keep (λ x. not (eqb x v)) (s.sets k)) s.sets };
  smembers = λ k s. s.sets k;
  incr = λ k s. (err [], s);
}

pub put_same : {A : Type 0} (k : Text) (a : A) (f : Text → A) → put k a f k ≡ a
put_same k a f = rw (eqb_refl k) refl

abbrev pub memory_server : IsServer memory
memory_server = record {
  list_at = λ k s. s.lists k;
  lpush_at = λ k v s. put_same k _ s.lists;
  brpop_value = λ k s. refl;
  brpop_rest = λ k s. put_same k _ s.lists;
  del_list = λ k s. put_same k _ s.lists;
  del_value = λ k s. put_same k _ s.values;
  del_found = λ k v s e. ap is_some e;
  set_nx_free = λ k v t s e. rw e (refl, put_same k _ s.values);
  set_nx_taken = λ k v w t s e. rw e refl;
}
