-- ===== src/Engine/Connection.antt =====
-- engine/orm-connection.c: the synchronous operations of OrmConnection. Without a worker
-- orm_connection_run_confined is a direct call, so each statement is one call of the driver.
pub mod Safety
use orm_glib.Base.{Bool, true, false, List, [], Option, none, some, if◌then◌else◌, Text}
use orm_glib.Base.Int.{ℤ, pos}
use orm_glib.Core.Value.{Value}
use orm_glib.Core.Error.{Error, Status, ok, failed}
use orm_glib.Engine.Driver.{
  Driver, DialectType, sqlite, postgres, mysql, IsolationLevel, serializable, read_committed,
  repeatable_read, QueryResult, rows, refused,
}

-- OrmConnectionState.
pub data ConnectionState : Type 0 where
  closed connecting idle busy : ConnectionState

-- `has_driver` tells whether the pointer driver_conn is set; `db` is what it reaches.
pub record Connection (d : Driver) : Type 0 where
  pub db : d.Db
  pub has_driver : Bool
  pub dialect_type : DialectType
  pub is_open : Bool
  pub in_transaction : Bool
  pub isolation_level : IsolationLevel
  pub state : ConnectionState

abbrev default_isolation : DialectType → IsolationLevel
default_isolation postgres = read_committed
default_isolation mysql = repeatable_read
default_isolation sqlite = serializable

module _ {d : Driver} where
  -- orm_connection_new, once the driver has opened the database.
  unfoldable pub connection_new : d.Db → DialectType → Connection d
  connection_new db dialect = record {
    db = db;
    has_driver = true;
    dialect_type = dialect;
    is_open = true;
    in_transaction = false;
    isolation_level = default_isolation dialect;
    state = idle;
  }

  -- orm_connection_close_driver, then the state.
  unfoldable pub close : Connection d → Connection d
  close c = record c {
    db = if c.has_driver then d.close c.db else c.db;
    has_driver = false;
    is_open = false;
    in_transaction = false;
    state = closed;
  }

  unfoldable pub set_in_transaction : Connection d → Bool → Connection d
  set_in_transaction c b = record c { in_transaction = b }

  -- orm_driver_connection_execute returns FALSE, with no error, for a NULL driver connection.
  unfoldable pub execute_with_params : Connection d → Text → List Value → Connection d × Status
  execute_with_params c sql params =
      if c.is_open
      then (if c.has_driver
          then (let (db, status) = d.execute c.db sql params in (record c { db = db }, status))
          else (c, failed none))
      else (c, failed none)

  unfoldable pub execute : Connection d → Text → Connection d × Status
  unfolding execute_with_params
  execute c sql = execute_with_params c sql []

  unfoldable pub query_with_params : Connection d → Text → List Value → Connection d × QueryResult
  query_with_params c sql params =
      if c.is_open
      then (if c.has_driver
          then (let (db, result) = d.query c.db sql params in (record c { db = db }, result))
          else (c, refused none))
      else (c, refused none)

  unfoldable pub query : Connection d → Text → Connection d × QueryResult
  unfolding query_with_params
  query c sql = query_with_params c sql []

  -- orm_connection_isolation_work.
  unfoldable pub isolation_work : Connection d → IsolationLevel → Bool → Connection d × Status
  isolation_work c level next =
      if c.has_driver
      then (let (db, status) = d.set_isolation_level c.db level next in
          (record c { db = db }, status))
      else (c, failed none)

  abbrev after_isolation : IsolationLevel → Connection d × Status → Connection d × Status
  after_isolation level (c, ok) = (record c { isolation_level = level }, ok)
  after_isolation level (c, failed e) = (c, failed e)

  unfoldable pub set_isolation_level : Connection d → IsolationLevel → Connection d × Status
  unfolding isolation_work
  set_isolation_level c level =
      if c.is_open then after_isolation level (isolation_work c level false) else (c, failed none)

  -- orm_connection_get_last_insert_rowid.
  unfoldable pub get_last_insert_rowid : Connection d → ℤ
  get_last_insert_rowid c = if c.has_driver then d.last_insert_id c.db else pos 0
