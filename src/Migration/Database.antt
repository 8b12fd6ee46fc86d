-- ===== src/Migration/Database.antt =====
-- What SQLite and PostgreSQL promise about the bookkeeping table: a view of a driver's state, and
-- the documented behaviour of the statements that the migrator sends, while no other session writes
-- the table, which the locks are for. MySQL, which commits at every DDL statement, does not meet
-- these laws.
use orm_glib.Base.{
  ℕ, ◌∷◌, Bool, true, false, Option, none, some, List, [], ◌++◌, map, ◌≡◌, Text, codes, arith,
}
use orm_glib.Base.Int.{ℤ}
use orm_glib.Core.Platform.{Platform}
use orm_glib.Core.Error.{Status, ok, failed}
use orm_glib.Engine.Url.Network.{IsDigits}
use orm_glib.Engine.Row.{Row}
use orm_glib.Engine.Driver.{Driver, DialectType, sqlite, is_postgres, rows}
use orm_glib.Engine.Connection.{Connection, execute}
use orm_glib.Migration.History.{Migration, MigrationFunc, select_history, record_sql, record_params}
use orm_glib.Migration.Migrator.{lock_sql, unlock_sql, busy_timeout_sql, create_history_sql}
use orm_glib.Migration.Entries.{Entry, encode, entry, insert_entry, remove_version}

abbrev pub begin_sql : DialectType → Text
begin_sql sqlite = codes "BEGIN IMMEDIATE"
begin_sql _ = codes "BEGIN"

-- The decimal notation of a number: digits, at least one, and a minus before them or not.
pub data IsDecimal : Text → Type 0 where
  unsigned : (c : ℕ) (s : Text) → IsDigits (c ∷ s) → IsDecimal (c ∷ s)
  signed : (c : ℕ) (s : Text) → IsDigits (c ∷ s) → IsDecimal (45 ∷ c ∷ s)

-- As documented, a gint64 is printed in decimal notation.
pub record PrintsDecimal (p : Platform) : Type 0 where
  pub prints : (n : ℤ) → IsDecimal (p.int_to_text n)

-- The statements around the steps, which change no record of a step.
pub data Neutral : Text → Type 0 where
  neutral_lock : Neutral lock_sql
  neutral_unlock : Neutral unlock_sql
  neutral_timeout : Neutral busy_timeout_sql
  neutral_create : Neutral create_history_sql
  neutral_restore : (n : Text) → IsDecimal n → Neutral (codes "PRAGMA busy_timeout = " ++ n)

-- The statement that is kept for the end, if there is one.
abbrev pub IsHarmless : Option Text → Type 0
IsHarmless none = Unit {0}
IsHarmless (some sql) = Neutral sql

-- What is unchanged by a statement that fails, and by one that is neutral.
abbrev pub Unless : Status → Type 0 → Type 0
Unless ok P = P
Unless (failed _) P = Unit {0}

abbrev pub OnStatus : Status → Type 0 → Type 0 → Type 0
OnStatus ok P Q = P
OnStatus (failed _) P Q = Q

-- `durable` is the table as committed, `visible` as this session sees it, `open_tx` whether a
-- transaction is open.
pub record HistoryDb (d : Driver) (type : DialectType) : Type 0 where
  pub durable : d.Db → List Entry
  pub visible : d.Db → List Entry
  pub open_tx : d.Db → Bool
  pub begin_law :
      (db : d.Db)
      → open_tx db ≡ false
      → let r = d.execute db (begin_sql type) [] in
        (durable r.0 ≡ durable db) × Unless r.1 ((visible r.0 ≡ durable db) × (open_tx r.0 ≡ true))
  pub commit_law :
      (db : d.Db)
      → open_tx db ≡ true
      → let r = d.execute db (codes "COMMIT") [] in
        OnStatus r.1 ((durable r.0 ≡ visible db) × (open_tx r.0 ≡ false)) (durable r.0 ≡ durable db)
  pub rollback_law : (db : d.Db) → durable (d.execute db (codes "ROLLBACK") []).0 ≡ durable db
  pub close_law : (db : d.Db) → durable (d.close db) ≡ durable db
  pub neutral_law :
      (db : d.Db) (sql : Text)
      → Neutral sql
      → let r = d.execute db sql [] in
        (durable r.0 ≡ durable db)
        × Unless r.1 ((visible r.0 ≡ visible db) × (open_tx r.0 ≡ open_tx db))
  pub timeout_law :
      (db : d.Db)
      → let r = d.query db (codes "PRAGMA busy_timeout") [] in
        (durable r.0 ≡ durable db) × (open_tx r.0 ≡ open_tx db)
  pub insert_law :
      (db : d.Db) (m : Migration d)
      → open_tx db ≡ true
      → let r = d.execute db (record_sql (is_postgres type) false) (record_params m false) in
        (durable r.0 ≡ durable db)
        × Unless r.1 ((visible r.0 ≡ insert_entry (entry m) (visible db)) × (open_tx r.0 ≡ true))
  pub delete_law :
      (db : d.Db) (m : Migration d)
      → open_tx db ≡ true
      → let r = d.execute db (record_sql (is_postgres type) true) (record_params m true) in
        (durable r.0 ≡ durable db)
        × Unless r.1 ((visible r.0 ≡ remove_version m.version (visible db)) × (open_tx r.0 ≡ true))
  pub select_law :
      (db : d.Db) (found : List Row)
      → let r = d.query db select_history [] in
        (durable r.0 ≡ durable db)
        × (visible r.0 ≡ visible db)
        × (open_tx r.0 ≡ open_tx db)
        × (r.1 ≡ rows found none → found ≡ map encode (visible db))

module _ {d : Driver} {type : DialectType} (h : HistoryDb d type) where
  -- A step keeps off the bookkeeping table and ends no transaction, whether it succeeds or not.
  abbrev pub Respects : Option (MigrationFunc d) → Type 0
  Respects none = Unit {0}
  Respects (some f) =
      (c : Connection d)
      → (h.durable (f c).0.db ≡ h.durable c.db)
        × Unless (f c).1
            ((h.visible (f c).0.db ≡ h.visible c.db) × (h.open_tx (f c).0.db ≡ h.open_tx c.db))

  -- A statement that leaves the database as it is.
  pub execute-Respects :
      (sql : Text)
      → ((db : d.Db) → (d.execute db sql []).0 ≡ db)
      → Respects (some (λ c. execute c sql))
  unfolding execute
  execute-Respects sql k c = ground (arith, k c.db)
