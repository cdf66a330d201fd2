-- ===== src/Database/Session/Quiet.antt =====
-- Actions in a session that no other session disturbs: statements may fail and time passes. A triple
-- says where the table is led: to the first condition if the action returns, to the second if it
-- throws.
use text2image.Base.{
  ◌≡◌, refl, sym, Option, none, some, List, [], ◌∷◌, All, Result, ok, err, Action, Bool, true,
  false, ◌>>=◌, next, pure, fail, if◌then◌else◌,
}
use mathlib.Core.Path.{subst}
use text2image.Errors.Repo.{Thrown, repo_invoke}
use text2image.Database.Table.{Row, Table, update_where}
use text2image.Database.Session.{
  Event, Database, Sql, execute, event_of, events_after, happen, finish_statement, current_time,
  query, update_statement,
}

abbrev pub IsQuietEvent : Event → Type 0
IsQuietEvent e = (t : Table) → e.write t ≡ t

-- No other session writes.
abbrev pub Undisturbed : Database → Type 0
Undisturbed db = All IsQuietEvent db.events

-- The condition `Q` holds of what was returned, `R` after a failure.
abbrev pub Ends :
    {E A : Type 0} → (Table → Type 0) → (Table → Type 0) → Result E A × Database → Type 0
Ends Q R (ok a, db) = Undisturbed db × Q db.table
Ends Q R (err e, db) = Undisturbed db × R db.table

pub record Triple {E A : Type 0} (P : Table → Type 0) (m : Action Database E A)
    (Q R : Table → Type 0) : Type 0 where
  pub ends : (db : Database) → Undisturbed db → P db.table → Ends Q R (m db)

event_of-quiet : (es : List Event) → All IsQuietEvent es → IsQuietEvent (event_of es)
event_of-quiet [] h = λ t. refl
event_of-quiet (e ∷ es) h = h.0

events_after-quiet : (es : List Event) → All IsQuietEvent es → All IsQuietEvent (events_after es)
events_after-quiet [] h = tt
events_after-quiet (e ∷ es) h = h.1

module _ (R : Table → Type 0) where
  statement-Ends :
      {A : Type 0} (Q : Table → Type 0) (fault : Option Thrown)
      (statement : Database → A × Database) (db : Database)
      → Undisturbed db
      → R db.table
      → Undisturbed (statement db).1 × Q (statement db).1.table
      → Ends Q R (finish_statement fault statement db)
  statement-Ends Q (some e) statement db u r q = (u, r)
  statement-Ends Q none statement db u r q = q

  pub execute-Triple :
      {A : Type 0} (P Q : Table → Type 0) (statement : Database → A × Database)
      → ((t : Table) → P t → R t)
      → ((db : Database)
          → Undisturbed db
          → P db.table
          → Undisturbed (statement db).1 × Q (statement db).1.table)
      → Triple P (execute statement) Q R
  unfolding execute
  execute-Triple P Q statement weaken run = record {
    ends = λ db u p.
        let e = event_of db.events in
        let p' : P (e.write db.table) = subst P (sym (event_of-quiet db.events u db.table)) p in
        let u' = events_after-quiet db.events u in
        statement-Ends Q e.fault statement (happen e db) u' (weaken _ p') (run _ u' p');
  }

  next-Ends :
      {E A B : Type 0} (Q S : Table → Type 0) (f : A → Action Database E B)
      (r : Result E A × Database)
      → ((a : A) → Triple Q (f a) S R)
      → Ends Q R r
      → Ends S R (next f r)
  next-Ends Q S f (ok a, db) h e = (h a).ends db e.0 e.1
  next-Ends Q S f (err x, db) h e = e

  pub bind-Triple :
      {E A B : Type 0} (P Q S : Table → Type 0) {m : Action Database E A}
      {f : A → Action Database E B}
      → Triple P m Q R
      → ((a : A) → Triple Q (f a) S R)
      → Triple P (m >>= f) S R
  bind-Triple P Q S {m = m} {f = f} k h = record {
    ends = λ db u p. next-Ends Q S f (m db) h (k.ends db u p);
  }

  pub pure-Triple : {E A : Type 0} (P : Table → Type 0) (a : A) → Triple {E = E} P (pure a) P R
  pure-Triple P a = record { ends = λ db u p. (u, p) }

  pub fail-Triple :
      {E A : Type 0} (P Q : Table → Type 0) (e : E)
      → ((t : Table) → P t → R t)
      → Triple {A = A} P (fail e) Q R
  fail-Triple P Q e weaken = record { ends = λ db u p. (u, weaken _ p) }

  pub current_time-Triple : (P : Table → Type 0) → Triple P current_time P R
  current_time-Triple P = record { ends = λ db u p. (u, p) }

  pub query-Triple :
      {A : Type 0} (P : Table → Type 0) (f : List Row → A)
      → ((t : Table) → P t → R t)
      → Triple P (execute (query f)) P R
  query-Triple P f weaken = execute-Triple P P (query f) weaken (λ db u p. (u, p))

  pub update-Triple :
      (P Q : Table → Type 0) (changed p : Row → Bool) (f : Row → Row)
      → ((t : Table) → P t → R t)
      → ((t : Table) → P t → Q (record t { rows = update_where p f t.rows }))
      → Triple P (execute (update_statement changed p f)) Q R
  update-Triple P Q changed p f weaken lead =
      execute-Triple P Q (update_statement changed p f) weaken (λ db u h. (u, lead db.table h))

  pub choice-Triple :
      {E A : Type 0} (P Q : Table → Type 0) (b : Bool) {m n : Action Database E A}
      → Triple P m Q R
      → Triple P n Q R
      → Triple P (if b then m else n) Q R
  choice-Triple P Q true k l = k
  choice-Triple P Q false k l = l

  -- After `repoInvoke` an exception has become a value, and the table is where it was led.
  pub repo_invoke-table :
      {A : Type 0} (P : Table → Type 0) (m : Sql A)
      → Triple P m R R
      → (db : Database) → Undisturbed db
      → P db.table
      → R (repo_invoke m db).1.table
  unfolding repo_invoke
  repo_invoke-table {A = A} P m k db u p = go (m db) (k.ends db u p)
    where
      go : (r : Result Thrown A × Database) → Ends R R r → R (repo_invoke (λ _. r) db).1.table
      go (ok a, d) e = e.1
      go (err x, d) e = e.1
