-- ===== src/Database/Session/Keeps.antt =====
-- Actions that keep an invariant of the table, whatever fails and whatever other sessions write, as
-- long as these keep it too.
use text2image.Base.{
  Option, none, some, List, [], ◌∷◌, All, Result, ok, err, Action, Bool, true, false, arith, next,
  ◌>>=◌, pure, fail, if◌then◌else◌,
}
use text2image.Errors.Repo.{Thrown, repo_invoke}
use text2image.Database.Table.{Row, Table, update_where}
use text2image.Database.Session.{
  Event, Database, Sql, execute, event_of, events_after, happen, finish_statement, current_time,
  query, update_statement,
}

module _ (P : Table → Type 0) where
  abbrev pub IsTameEvent : Event → Type 0
  IsTameEvent e = (t : Table) → P t → P (e.write t)

  -- The table is good, and stays so when other sessions write.
  pub record IsGood (db : Database) : Type 0 where
    pub table_good : P db.table
    pub events_tame : All IsTameEvent db.events

  -- An action keeps the invariant, also when it fails.
  pub record Keeps {E A : Type 0} (m : Action Database E A) : Type 0 where
    pub keeps : (db : Database) → IsGood db → IsGood (m db).1

  event_of-tame : (es : List Event) → All IsTameEvent es → IsTameEvent (event_of es)
  event_of-tame [] h = λ t p. p
  event_of-tame (e ∷ es) h = h.0

  events_after-tame : (es : List Event) → All IsTameEvent es → All IsTameEvent (events_after es)
  events_after-tame [] h = tt
  events_after-tame (e ∷ es) h = h.1

  happen-IsGood : (db : Database) → IsGood db → IsGood (happen (event_of db.events) db)
  happen-IsGood db g = record {
    table_good = event_of-tame db.events g.events_tame db.table g.table_good;
    events_tame = events_after-tame db.events g.events_tame;
  }

  finish-IsGood :
      {A : Type 0} (fault : Option Thrown) (statement : Database → A × Database) (db : Database)
      → IsGood db
      → IsGood (statement db).1
      → IsGood (finish_statement fault statement db).1
  finish-IsGood (some e) statement db g h = g
  finish-IsGood none statement db g h = h

  pub execute-Keeps :
      {A : Type 0} (statement : Database → A × Database)
      → ((db : Database) → IsGood db → IsGood (statement db).1)
      → Keeps (execute statement)
  unfolding execute
  execute-Keeps statement h = record {
    keeps = λ db g.
        let g' = happen-IsGood db g in
        finish-IsGood (event_of db.events).fault statement (happen (event_of db.events) db) g'
          (h _ g');
  }

  next-IsGood :
      {E A B : Type 0} (f : A → Action Database E B) (r : Result E A × Database)
      → ((a : A) → Keeps (f a))
      → IsGood r.1
      → IsGood (next f r).1
  next-IsGood f (ok a, db) h g = (h a).keeps db g
  next-IsGood f (err e, db) h g = g

  pub bind-Keeps :
      {E A B : Type 0} {m : Action Database E A} {f : A → Action Database E B}
      → Keeps m
      → ((a : A) → Keeps (f a))
      → Keeps (m >>= f)
  bind-Keeps {m = m} {f = f} k h = record { keeps = λ db g. next-IsGood f (m db) h (k.keeps db g) }

  pub pure-Keeps : {E A : Type 0} (a : A) → Keeps {E = E} (pure a)
  pure-Keeps a = record { keeps = λ db g. g }

  pub fail-Keeps : {E A : Type 0} (e : E) → Keeps {A = A} (fail e)
  fail-Keeps e = record { keeps = λ db g. g }

  pub current_time-Keeps : Keeps current_time
  current_time-Keeps = record { keeps = λ db g. g }

  pub query-Keeps : {A : Type 0} (f : List Row → A) → Keeps (execute (query f))
  query-Keeps f = execute-Keeps (query f) (λ db g. g)

  pub update-Keeps :
      (changed p : Row → Bool) (f : Row → Row)
      → ((t : Table) → P t → P (record t { rows = update_where p f t.rows }))
      → Keeps (execute (update_statement changed p f))
  update-Keeps changed p f h =
      execute-Keeps (update_statement changed p f)
        (λ db g. record { table_good = h db.table g.table_good; events_tame = g.events_tame })

  invoked-IsGood :
      {A : Type 0} (m : Sql A) (db : Database) → IsGood (m db).1 → IsGood (repo_invoke m db).1
  unfolding repo_invoke
  invoked-IsGood m db g = ground arith

  pub repo_invoke-Keeps : {A : Type 0} {m : Sql A} → Keeps m → Keeps (repo_invoke m)
  repo_invoke-Keeps {m = m} k = record { keeps = λ db g. invoked-IsGood m db (k.keeps db g) }

  pub choice-Keeps :
      {E A : Type 0} (b : Bool) {m n : Action Database E A}
      → Keeps m
      → Keeps n
      → Keeps (if b then m else n)
  choice-Keeps true k l = k
  choice-Keeps false k l = l
