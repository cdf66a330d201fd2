-- ===== src/Services/TaskEngine/Leads.antt =====
-- Actions of the engine that lead from one condition on its state to another, where `D` must hold of
-- the state in which an action fails.
use text2image.Base.{
  ◌≡◌, refl, sym, Bool, true, false, Result, ok, err, Action, next, ◌>>=◌, pure, if◌then◌else◌,
}
use mathlib.Core.Path.{subst}
use text2image.Errors.Repo.{RepoError}
use text2image.Database.Session.{Database}
use text2image.Services.Effects.{Exception}
use text2image.Services.Generation.{rescue, caught}
use text2image.Services.Redis.{RedisConnection}
use text2image.Services.Yields.{IsOutcome, Yields, Any, Never}
use text2image.Services.TaskEngine.{Engine, on_repo, on_redis, on_rest}

module _ {S W : Type 0} (D : Engine S W → Type 0) where
  abbrev Arrives :
      {A : Type 0} → (A → Engine S W → Type 0) → Result Exception A × Engine S W → Type 0
  Arrives Q (ok a, e) = Q a e
  Arrives Q (err x, e) = D e

  pub record Leads {A : Type 0} (P : Engine S W → Type 0) (m : Action (Engine S W) Exception A)
      (Q : A → Engine S W → Type 0) : Type 0 where
    pub leads : (e : Engine S W) → P e → Arrives Q (m e)

  next-Arrives :
      {A B : Type 0} (Q : A → Engine S W → Type 0) (R : B → Engine S W → Type 0)
      (f : A → Action (Engine S W) Exception B)
      → ((a : A) → Leads (Q a) (f a) R)
      → (o : Result Exception A × Engine S W) → Arrives Q o
      → Arrives R (next f o)
  next-Arrives Q R f k (ok a, e) q = (k a).leads e q
  next-Arrives Q R f k (err x, e) d = d

  pub bind-Leads :
      {A B : Type 0} (P : Engine S W → Type 0) (Q : A → Engine S W → Type 0)
      (R : B → Engine S W → Type 0) (m : Action (Engine S W) Exception A)
      (f : A → Action (Engine S W) Exception B)
      → Leads P m Q
      → ((a : A) → Leads (Q a) (f a) R)
      → Leads P (m >>= f) R
  bind-Leads P Q R m f h k = record { leads = λ e p. next-Arrives Q R f k (m e) (h.leads e p) }

  pub pure-Leads : {A : Type 0} (P : Engine S W → Type 0) (a : A) → Leads P (pure a) (λ x. P)
  pure-Leads P a = record { leads = λ e p. p }

  -- A step that is known to return this value.
  pub bind_value-Leads :
      {A B : Type 0} (P Q : Engine S W → Type 0) (R : B → Engine S W → Type 0) (a : A)
      (m : Action (Engine S W) Exception A) (f : A → Action (Engine S W) Exception B)
      → Leads P m (λ x e. (x ≡ a) × Q e)
      → Leads Q (f a) R
      → Leads P (m >>= f) R
  bind_value-Leads P Q R a m f h k =
      bind-Leads P (λ x e. (x ≡ a) × Q e) R m f h
        λ x. record { leads = λ e q. subst (λ y. Arrives R (f y e)) (sym q.0) (k.leads e q.1) }

  caught-Arrives :
      {A : Type 0} (a : A) (o : Result Exception A × Engine S W)
      → Arrives (λ x. D) o
      → D (caught (λ x. pure a) o).1
  caught-Arrives a (ok b, e) d = d
  caught-Arrives a (err x, e) d = d

  pub rescue-Leads :
      {A : Type 0} (P : Engine S W → Type 0) (m : Action (Engine S W) Exception A) (a : A)
      → Leads P m (λ x. D)
      → (e : Engine S W) → P e
      → D (rescue m (λ x. pure a) e).1
  unfolding rescue
  rescue-Leads P m a h e p = caught-Arrives a (m e) (h.leads e p)

  done-Arrives : {A : Type 0} (o : Result Exception A × Engine S W) → D o.1 → Arrives (λ x. D) o
  done-Arrives (ok a, e) d = d
  done-Arrives (err x, e) d = d

  pub rescued-Leads :
      {A : Type 0} (P : Engine S W → Type 0) (m : Action (Engine S W) Exception A) (a : A)
      → Leads P m (λ x. D)
      → Leads P (rescue m (λ x. pure a)) (λ x. D)
  rescued-Leads P m a h = record { leads = λ e p. done-Arrives _ (rescue-Leads P m a h e p) }

  pub if-Leads :
      {A : Type 0} (P : Engine S W → Type 0) (Q : A → Engine S W → Type 0) (b : Bool)
      (m k : Action (Engine S W) Exception A)
      → Leads P m Q
      → Leads P k Q
      → Leads P (if b then m else k) Q
  if-Leads P Q true m k h h' = h
  if-Leads P Q false m k h h' = h'

  -- The database and the Redis client are these.
  abbrev pub At : Database → RedisConnection S → Engine S W → Type 0
  At db c e = (e.database ≡ db) × (e.redis ≡ c)

  rest-Arrives :
      {A : Type 0} (Q : A → Type 0) (db : Database) (c : RedisConnection S) (e : Engine S W)
      (o : Result Exception A × W)
      → At db c e
      → IsOutcome Q Never o
      → Arrives (λ x e'. Q x × At db c e') (o.0, record e { rest = o.1 })
  rest-Arrives Q db c e (ok a, w) at q = (q, at)
  rest-Arrives Q db c e (err x, w) at q = absurd q

  -- A port that does not throw.
  pub rest-Leads :
      {A : Type 0} (Q : A → Type 0) (db : Database) (c : RedisConnection S)
      (m : Action W Exception A)
      → Yields m Q Never
      → Leads (At db c) (on_rest m) (λ x e. Q x × At db c e)
  unfolding on_rest
  rest-Leads Q db c m y = record {
    leads = λ e at. rest-Arrives Q db c e (m e.rest) at (y.yields e.rest);
  }

  weaken-Arrives :
      {A : Type 0} (Q R : A → Engine S W → Type 0)
      → ((a : A) (e : Engine S W) → Q a e → R a e)
      → (o : Result Exception A × Engine S W) → Arrives Q o
      → Arrives R o
  weaken-Arrives Q R k (ok a, e) q = k a e q
  weaken-Arrives Q R k (err x, e) d = d

  -- A port that does not throw, and of whose value nothing need be known.
  pub calm-Leads :
      {A : Type 0} (db : Database) (c : RedisConnection S) (m : Action W Exception A)
      → Yields m Any Never
      → Leads (At db c) (on_rest m) (λ x. At db c)
  calm-Leads db c m y = record {
    leads = λ e at.
        weaken-Arrives (λ x e'. Any x × At db c e') (λ x. At db c) (λ a e' q. q.1) _
          ((rest-Leads Any db c m y).leads e at);
  }

  -- A step of Redis, and a call of the repository, whose outcome is known.
  pub redis-Leads :
      {A : Type 0} (db : Database) (c c' : RedisConnection S) (a : A)
      (m : Action (RedisConnection S) Exception A)
      → m c ≡ (ok a, c')
      → Leads (At db c) (on_redis m) (λ x e. (x ≡ a) × At db c' e)
  unfolding on_redis
  redis-Leads db c c' a m outcome = record {
    leads = λ e at. rw (at.1, outcome) (refl, (at.0, refl));
  }

  pub repo-Leads :
      {A : Type 0} (db db' : Database) (c : RedisConnection S) (o : Result RepoError A)
      (m : Action Database RepoError A)
      → m db ≡ (o, db')
      → Leads (At db c) (on_repo m) (λ x e. (x ≡ o) × At db' c e)
  unfolding on_repo
  repo-Leads db db' c o m outcome = record {
    leads = λ e at. rw (at.0, outcome) (refl, (refl, at.1));
  }

-- What holds of the database alone is kept by every step that leaves it.
module _ {S W : Type 0} (K : Database → Type 0) where
  abbrev pub Kept : Engine S W → Type 0
  Kept e = K e.database

  redis-Kept :
      {A : Type 0} (e : Engine S W) (o : Result Exception A × RedisConnection S)
      → Kept e
      → Arrives Kept (λ x. Kept) (o.0, record e { redis = o.1 })
  redis-Kept e (ok a, c) k = k
  redis-Kept e (err x, c) k = k

  pub keep_redis-Leads :
      {A : Type 0} (m : Action (RedisConnection S) Exception A)
      → Leads Kept Kept (on_redis m) (λ x. Kept)
  unfolding on_redis
  keep_redis-Leads m = record { leads = λ e k. redis-Kept e (m e.redis) k }

  rest-Kept :
      {A : Type 0} (e : Engine S W) (o : Result Exception A × W)
      → Kept e
      → Arrives Kept (λ x. Kept) (o.0, record e { rest = o.1 })
  rest-Kept e (ok a, w) k = k
  rest-Kept e (err x, w) k = k

  pub keep_rest-Leads :
      {A : Type 0} (m : Action W Exception A) → Leads Kept Kept (on_rest m) (λ x. Kept)
  unfolding on_rest
  keep_rest-Leads m = record { leads = λ e k. rest-Kept e (m e.rest) k }
