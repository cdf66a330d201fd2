-- ===== src/Database/Session.antt =====
-- A database session as Backend/src/database/ImageRepo.cpp uses it: statements on one table, each of
-- which commits by itself. Between two statements time passes and other sessions commit changes, and
-- a statement may fail: the schedule of a session says what happens before each of its statements.
pub mod Keeps
pub mod Quiet
use text2image.Base.{
  ℕ, ◌+◌, Bool, true, false, Option, none, some, List, [], ◌∷◌, Result, ok, err, Action,
  if◌then◌else◌, ◌>>=◌, pure,
}
use text2image.Utils.Chrono.{Time}
use text2image.Errors.Repo.{Thrown}
use text2image.Database.Table.{Row, Table, update_where, select_where, count_where}

-- What happens before a statement runs: the clock moves, other sessions write, the statement may fail.
pub record Event : Type 0 where
  pub clock : Time → Time
  pub write : Table → Table
  pub fault : Option Thrown

abbrev pub quiet : Event
quiet = record { clock = λ now. now; write = λ t. t; fault = none }

pub record Database : Type 0 where
  pub table : Table
  pub now : Time
  pub last_insert_id : Option ℕ
  pub table_ready : Bool
  pub events : List Event

abbrev pub Sql : Type 0 → Type 0
Sql A = Action Database Thrown A

-- A schedule that has run out is quiet.
abbrev pub event_of : List Event → Event
event_of [] = quiet
event_of (e ∷ es) = e

abbrev pub events_after : List Event → List Event
events_after [] = []
events_after (e ∷ es) = es

abbrev pub happen : Event → Database → Database
happen e db = record db {
  table = e.write db.table;
  now = e.clock db.now;
  events = events_after db.events;
}

abbrev pub finish_statement :
    {A : Type 0} → Option Thrown → (Database → A × Database) → Database → Result Thrown A × Database
finish_statement (some e) statement db = (err e, db)
finish_statement none statement db = let (a, db') = statement db in (ok a, db')

-- `.execute()`
unfoldable pub execute : {A : Type 0} → (Database → A × Database) → Sql A
execute statement db =
    let e = event_of db.events in finish_statement e.fault statement (happen e db)

-- `system_clock::now()`
abbrev pub current_time : Sql Time
current_time db = (ok db.now, db)

abbrev pub set_rows : Database → List Row → Database
set_rows db rows = record db { table = record (db.table) { rows = rows } }

-- An UPDATE, with the number of the rows that it changes by the given test.
abbrev pub update_statement : (Row → Bool) → (Row → Bool) → (Row → Row) → Database → ℕ × Database
update_statement changed p f db =
    (count_where changed db.table.rows, set_rows db (update_where p f db.table.rows))

-- A query of the rows.
abbrev pub query : {A : Type 0} → (List Row → A) → Database → A × Database
query f db = (f db.table.rows, db)
