-- ===== src/Migration/Migrator.antt =====
-- migration/orm-migrator.c: OrmMigrator and `run`, behind orm_migrator_status, orm_migrator_up and
-- orm_migrator_down. `goto out` is an outcome, the local variables are the record `Run`, and the
-- endless loop takes fuel, whose end is an outcome of its own.
use orm_glib.Base.{
  ℕ, Bool, true, false, Option, none, some, List, [], ◌∷◌, ◌++◌, ◌⊎◌, inl, inr, Text, codes,
}
use orm_glib.Base.Int.{ℤ}
use orm_glib.Core.Value.{Value, get_integer}
use orm_glib.Core.Platform.{Platform}
use orm_glib.Core.Error.{Error, Status, ok, failed}
use orm_glib.Engine.Driver.{
  Driver, DialectType, sqlite, postgres, mysql, QueryResult, rows, refused,
}
use orm_glib.Engine.Row.{Row, row_get_value}
use orm_glib.Engine.Connection.{Connection, execute, query}
use orm_glib.Migration.History.{Migration}

-- OrmMigrator. `running` is the atomic flag.
pub record Migrator (d : Driver) : Type 0 where
  pub connection : Connection d
  pub dialect : DialectType
  pub migrations : List (Migration d)
  pub running : Bool

-- The signals migration-applied and migration-failed, with the version of the step.
pub data Signal : Type 0 where
  migration_applied : ℤ → Bool → Signal
  migration_failed : ℤ → Error → Signal

-- The parameter `direction`: 1, 0 and -1.
pub data Direction : Type 0 where
  upward stay downward : Direction

-- The local variables of `run`. `locker` is the second MySQL connection.
pub record Run (d : Driver) : Type 0 where
  pub connection : Connection d
  pub locker : Option (Connection d)
  pub restore_timeout : Option Text
  pub locked : Bool
  pub transaction : Bool
  pub migration : Option (Migration d)
  pub count : ℕ
  pub local_error : Option Error
  pub signals : List Signal

-- Go on, `goto out`, or the fuel of the loop or the array of the migrations has ended.
pub data Outcome (d : Driver) : Type 0 where
  go : Run d → Outcome d
  out : Run d → Outcome d
  stuck : Outcome d

-- One round of the loop: another one follows, or `break`, or `goto out`.
pub data Round (d : Driver) : Type 0 where
  again : Run d → Round d
  finished : Run d → Round d
  aborted : Run d → Round d
  beyond : Round d

-- The keys of the advisory lock are 1869770087 and 1835624306.
abbrev pub lock_sql : Text
lock_sql = codes "SELECT pg_advisory_lock(1869770087, 1835624306)"

abbrev pub unlock_sql : Text
unlock_sql = codes "SELECT pg_advisory_unlock(1869770087, 1835624306)"

abbrev pub create_lock_table_sql : Text
create_lock_table_sql = codes "CREATE TABLE IF NOT EXISTS schema_migrations_lock (id INTEGER)"

abbrev pub lock_table_sql : Text
lock_table_sql = codes "LOCK TABLES schema_migrations_lock WRITE"

abbrev pub busy_timeout_sql : Text
busy_timeout_sql = codes "PRAGMA busy_timeout = 30000"

abbrev pub create_history_sql : Text
create_history_sql =
    codes "CREATE TABLE IF NOT EXISTS schema_migrations ("
    ++ codes "version BIGINT PRIMARY KEY, name TEXT NOT NULL, "
    ++ codes "checksum VARCHAR(64) NOT NULL, applied_at TIMESTAMP NOT NULL)"

-- orm_result_get_scalar: the first column of the first row; its error is not looked at.
abbrev pub scalar : List Row → Option Value
scalar [] = none
scalar (row ∷ _) = row_get_value row 0

abbrev pub holds_transaction : DialectType → Bool
holds_transaction mysql = false
holds_transaction _ = true

module _ {d : Driver} where
  abbrev pub then_go : Outcome d → (Run d → Outcome d) → Outcome d
  then_go (go r) f = f r
  then_go (out r) f = out r
  then_go stuck f = stuck

  -- A statement on the working connection; on FALSE, `goto out`.
  abbrev pub after_status : Run d → Connection d × Status → Outcome d
  after_status r (c, ok) = go (record r { connection = c })
  after_status r (c, failed e) = out (record r { connection = c; local_error = e })

  abbrev pub run_sql : Text → Run d → Outcome d
  run_sql sql r = after_status r (execute r.connection sql)

  -- The MySQL branch: `connected` is what orm_engine_connect gives.
  abbrev after_locker_status : Run d → Connection d × Status → Outcome d
  after_locker_status r (c, ok) = go (record r { locker = some c })
  after_locker_status r (c, failed e) = out (record r { locker = some c; local_error = e })

  abbrev run_locker : Text → Run d → Outcome d
  run_locker sql r = elim r.locker [ none ↦ out r | some c ↦ after_locker_status r (execute c sql) ]

  abbrev with_locker : (Connection d ⊎ Option Error) → Run d → Outcome d
  with_locker (inl c) r = go (record r { locker = some c })
  with_locker (inr e) r = out (record r { local_error = e })

  abbrev pub save_timeout : Platform → Option Value → Run d → Outcome d
  save_timeout p none r = out (record r { local_error = some Error.query_failed })
  save_timeout p (some v) r = go (record r {
    restore_timeout = some (codes "PRAGMA busy_timeout = " ++ p.int_to_text (get_integer v));
  })

  abbrev pub read_timeout : Platform → Run d → Connection d × QueryResult → Outcome d
  read_timeout p r (c, rows rs ending) = save_timeout p (scalar rs) (record r { connection = c })
  read_timeout p r (c, refused e) = out (record r { connection = c; local_error = e })

  -- The lock of each dialect.
  unfoldable pub lock_database :
      Platform → (Connection d ⊎ Option Error) → DialectType → Run d → Outcome d
  unfolding execute query get_integer row_get_value
  lock_database p connected postgres r =
      then_go (run_sql lock_sql r) (λ r. go (record r { locked = true }))
  lock_database p connected mysql r = then_go (with_locker connected r) λ r.
      then_go (run_locker create_lock_table_sql r)
        λ r. then_go (run_locker lock_table_sql r) λ r. go (record r { locked = true })
  lock_database p connected sqlite r =
      then_go (read_timeout p r (query r.connection (codes "PRAGMA busy_timeout")))
        λ r. run_sql busy_timeout_sql r
