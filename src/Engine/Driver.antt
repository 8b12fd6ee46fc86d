-- ===== src/Engine/Driver.antt =====
-- The backend behind driver/orm-driver-connection.h. Its functions end in the database's own client
-- library, so the driver is a parameter: a state that holds the database with this session, and
-- what each function of the class does to it.
use orm_glib.Base.{Bool, true, false, Option, List, Text}
use orm_glib.Base.Int.{ℤ}
use orm_glib.Core.Value.{Value}
use orm_glib.Engine.Row.{Row}
use orm_glib.Core.Error.{Error, Status}

-- core/orm-enums.h: OrmDialectType.
pub data DialectType : Type 0 where
  sqlite postgres mysql : DialectType

abbrev pub is_postgres : DialectType → Bool
is_postgres postgres = true
is_postgres _ = false

-- core/orm-enums.h: OrmIsolationLevel.
pub data IsolationLevel : Type 0 where
  read_uncommitted read_committed repeatable_read serializable : IsolationLevel

-- A query fails at once, or gives the rows that can be fetched and the error that ends them, if one
-- does.
pub data QueryResult : Type 0 where
  rows : List Row → Option Error → QueryResult
  refused : Option Error → QueryResult

pub record Driver : Type 1 where
  pub Db : Type 0
  pub execute : Db → Text → List Value → Db × Status
  pub query : Db → Text → List Value → Db × QueryResult
  pub last_insert_id : Db → ℤ
  pub set_isolation_level : Db → IsolationLevel → Bool → Db × Status
  pub close : Db → Db
