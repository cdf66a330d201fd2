-- ===== src/Database/ImageRepo/Lifecycle/Triples.antt =====
-- Bodies of the methods of Backend/src/database/ImageRepo.cpp that write once.
use text2image.Base.{
  ℕ, ◌≡◌, sym, Bool, true, false, Option, none, some, List, Text, if◌then◌else◌, arith, ◌>>=◌, ◌>>◌,
  Result, ok, err, pure,
}
use mathlib.Core.Path.{subst}
use text2image.Utils.Chrono.{Time}
use text2image.Models.ImageGeneration.{ImageGeneration}
use text2image.Errors.Repo.{Thrown, repo_invoke}
use text2image.Database.Table.{Row, Table, count_where, update_where}
use text2image.Database.Table.Laws.{set_if}
use text2image.Database.Session.{Database, Sql, execute, current_time, query, update_statement}
use text2image.Database.Session.Quiet.{
  Undisturbed, Ends, Triple, execute-Triple, bind-Triple, pure-Triple, fail-Triple,
  current_time-Triple, query-Triple, update-Triple, choice-Triple, repo_invoke-table,
}
use text2image.Database.ImageRepo.{ensure_table, fetch_one}
use text2image.Database.ImageRepo.Owner.{inserted_id, or_vanished, or_too_long}
use text2image.Database.ImageRepo.Lifecycle.Rows.{Follows, Lives, Lives-self, Lives-update}

module _ (R P : Table → Type 0) (weaken : (t : Table) → P t → R t) where
  pub ensure_table-Triple : Triple P ensure_table P R
  unfolding ensure_table
  ensure_table-Triple = record { ends = λ db u p. ground (arith, created db u p, u, p) }
    where
      created :
          (db : Database)
          → Undisturbed db
          → P db.table
          → Ends P R (execute (λ (d : Database). (tt, record d { table_ready = true })) db)
      created db u p =
          (execute-Triple R P P (λ (d : Database). (tt, record d { table_ready = true })) weaken
              (λ d v q. (v, q))).ends
            db u p

  pub fetch_one-Triple : (p : Row → Bool) → Triple P (fetch_one p) P R
  unfolding fetch_one
  fetch_one-Triple p =
      bind-Triple R P P P (query-Triple R P _ weaken)
        λ found. bind-Triple R P P P (current_time-Triple R P) λ now. pure-Triple R P _

-- From one table, in an undisturbed session.
module _ (t₀ : Table) where
  abbrev pub Start : Table → Type 0
  Start t = t ≡ t₀

  pub start : (t : Table) → Start t → Lives t₀ t
  start t e = subst (Lives t₀) (sym e) (Lives-self t₀)

  pub same : (t : Table) → Lives t₀ t → Lives t₀ t
  same t l = l

  abbrev pub Writer : {A : Type 0} → Sql A → Type 0
  Writer m = Triple Start m (Lives t₀) (Lives t₀)

  -- A body that starts by `ensureTable`, from the table that it finds.
  pub body-Lives :
      {A : Type 0} (m : Sql A)
      → Triple Start m (Lives t₀) (Lives t₀)
      → (db : Database) → Undisturbed db
      → db.table ≡ t₀
      → Lives t₀ (repo_invoke (ensure_table >> m) db).1.table
  body-Lives m k = repo_invoke-table (Lives t₀) Start (ensure_table >> m) (
      bind-Triple (Lives t₀) Start Start (Lives t₀) (ensure_table-Triple (Lives t₀) Start start)
        λ _. k)

  -- One UPDATE and then no write.
  pub update_then :
      {A : Type 0} (changed p : Row → Bool) (f : Row → Row) {rest : ℕ → Sql A}
      → ((r : Row) → (f r).id ≡ r.id)
      → ((r : Row) → Follows r (set_if p f r))
      → ((n : ℕ) → Triple (Lives t₀) (rest n) (Lives t₀) (Lives t₀))
      → Writer (execute (update_statement changed p f) >>= rest)
  update_then changed p f keeps_id follows rest =
      bind-Triple (Lives t₀) Start (Lives t₀) (Lives t₀)
        (update-Triple (Lives t₀) Start (Lives t₀) changed p f start (λ t e.
          subst (λ u. Lives u (record t { rows = update_where p f t.rows })) e
            (Lives-update p f keeps_id follows t)))
        rest

  pub read : {A : Type 0} (a : A) → Triple {E = Thrown} (Lives t₀) (pure a) (Lives t₀) (Lives t₀)
  read a = pure-Triple (Lives t₀) (Lives t₀) a

  pub readback : (p : Row → Bool) → Triple (Lives t₀) (fetch_one p) (Lives t₀) (Lives t₀)
  readback p = fetch_one-Triple (Lives t₀) (Lives t₀) same p

  pub with_time :
      {A : Type 0} (f : Time → Sql A)
      → ((now : Time) → Writer (f now))
      → Writer (current_time >>= f)
  with_time f k =
      bind-Triple (Lives t₀) Start Start (Lives t₀) (current_time-Triple (Lives t₀) Start) k

-- What follows a write: a readback, or nothing.
module _ (t₀ : Table) where
  pub choice :
      {A : Type 0} (b : Bool) {m n : Sql A}
      → Triple (Lives t₀) m (Lives t₀) (Lives t₀)
      → Triple (Lives t₀) n (Lives t₀) (Lives t₀)
      → Triple (Lives t₀) (if b then m else n) (Lives t₀) (Lives t₀)
  choice b k l = choice-Triple (Lives t₀) (Lives t₀) (Lives t₀) b k l

  pub or_vanished-Triple :
      (message : Text) (o : Option ImageGeneration)
      → Triple (Lives t₀) (or_vanished message o) (Lives t₀) (Lives t₀)
  or_vanished-Triple message none = fail-Triple (Lives t₀) (Lives t₀) (Lives t₀) _ (same t₀)
  or_vanished-Triple message (some g) = read t₀ _

  pub inserted_id-Triple : (o : Option ℕ) → Triple (Lives t₀) (inserted_id o) (Lives t₀) (Lives t₀)
  inserted_id-Triple none = fail-Triple (Lives t₀) (Lives t₀) (Lives t₀) _ (same t₀)
  inserted_id-Triple (some id) = read t₀ _

  pub or_too_long-Triple :
      (fitted : Bool) → Triple (Lives t₀) (or_too_long fitted) (Lives t₀) (Lives t₀)
  or_too_long-Triple true = read t₀ _
  or_too_long-Triple false = fail-Triple (Lives t₀) (Lives t₀) (Lives t₀) _ (same t₀)

  -- One write and then no other.
  pub write_then :
      {A B : Type 0} (statement : Database → A × Database) {rest : A → Sql B}
      → ((c : Database) → Undisturbed c → Undisturbed (statement c).1)
      → ((c : Database) → c.table ≡ t₀ → Lives t₀ (statement c).1.table)
      → ((a : A) → Triple (Lives t₀) (rest a) (Lives t₀) (Lives t₀))
      → Writer t₀ (execute statement >>= rest)
  write_then statement quiet lives rest =
      bind-Triple (Lives t₀) (Start t₀) (Lives t₀) (Lives t₀)
        (execute-Triple (Lives t₀) (Start t₀) (Lives t₀) statement (start t₀)
          (λ c v e. (quiet c v, lives c e)))
        rest

  -- Queries only.
  pub reads_only :
      {A : Type 0} {m : Sql A} → Triple (Start t₀) m (Start t₀) (Lives t₀) → Writer t₀ m
  reads_only {m = m} k = record { ends = λ db u p. weaken (m db) (k.ends db u p) }
    where
      weaken :
          {A : Type 0} (r : Result Thrown A × Database)
          → Ends (Start t₀) (Lives t₀) r
          → Ends (Lives t₀) (Lives t₀) r
      weaken (ok a, d) e = (e.0, start t₀ d.table e.1)
      weaken (err x, d) e = e

  pub ask :
      {A B : Type 0} (f : List Row → A) {rest : A → Sql B}
      → ((a : A) → Writer t₀ (rest a))
      → Writer t₀ (execute (query f) >>= rest)
  ask f k =
      bind-Triple (Lives t₀) (Start t₀) (Start t₀) (Lives t₀)
        (query-Triple (Lives t₀) (Start t₀) f (start t₀)) k

  pub last : {A : Type 0} (a : A) → Writer t₀ (pure a)
  last a = reads_only (pure-Triple (Lives t₀) (Start t₀) a)

  pub checked :
      (p : Row → Bool) (message : Text)
      → Triple (Lives t₀) (fetch_one p >>= or_vanished message) (Lives t₀) (Lives t₀)
  checked p message =
      bind-Triple (Lives t₀) (Lives t₀) (Lives t₀) (Lives t₀) (readback t₀ p)
        (or_vanished-Triple message)

  pub finish_page :
      {A : Type 0} (b : Bool) (p : Row → Bool) (r : A) (f : ℕ → A)
      → Writer t₀ (if b then (execute (query (count_where p)) >>= λ n. pure (f n)) else pure r)
  finish_page true p r f = ask _ λ n. last (f n)
  finish_page false p r f = last r
