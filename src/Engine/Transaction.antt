-- ===== src/Engine/Transaction.antt =====
-- engine/orm-transaction.c, and the two ways to begin in engine/orm-connection.c. A transaction
-- points to its connection, so an operation takes both and gives both back.
pub mod Safety
pub mod Samples
use orm_glib.Base.{
  Bool, true, false, not, ◌&&◌, ◌++◌, List, [], Option, none, some, if◌then◌else◌, Text, codes,
}
use orm_glib.Core.Error.{Error, Status, ok, failed}
use orm_glib.Engine.Driver.{Driver, IsolationLevel, is_postgres}
use orm_glib.Engine.Connection.{Connection, execute, set_in_transaction, isolation_work}

-- The struct, without its weak reference.
pub record Transaction : Type 0 where
  pub is_active : Bool

-- A new transaction, or NULL with the error that was set.
pub data Begun : Type 0 where
  begun : Transaction → Begun
  refused : Option Error → Begun

abbrev quoted : Text → Text
quoted name = codes "\"" ++ name ++ codes "\""

module _ {d : Driver} where
  abbrev after_begin : Connection d × Status → Connection d × Begun
  after_begin (c, ok) = (set_in_transaction c true, begun (record { is_active = true }))
  after_begin (c, failed e) = (c, refused e)

  unfoldable pub transaction_new : Connection d → Connection d × Begun
  unfolding execute set_in_transaction
  transaction_new c =
      if c.is_open && not c.in_transaction
      then after_begin (execute c (codes "BEGIN"))
      else (c, refused none)

  abbrev after_commit : Connection d × Status → Connection d × Transaction × Status
  after_commit (c, ok) = (set_in_transaction c false, record { is_active = false }, ok)
  after_commit (c, failed e) = (c, record { is_active = true }, failed e)

  unfoldable pub commit : Connection d → Transaction → Connection d × Transaction × Status
  unfolding execute set_in_transaction
  commit c t =
      if t.is_active then after_commit (execute c (codes "COMMIT")) else (c, t, failed none)

  -- Also on error the transaction is marked as inactive.
  abbrev after_rollback : Connection d × Status → Connection d × Transaction × Status
  after_rollback (c, status) = (set_in_transaction c false, record { is_active = false }, status)

  unfoldable pub rollback : Connection d → Transaction → Connection d × Transaction × Status
  unfolding execute set_in_transaction
  rollback c t =
      if t.is_active then after_rollback (execute c (codes "ROLLBACK")) else (c, t, failed none)

  abbrev run_active : Connection d → Transaction → Text → Connection d × Status
  run_active c t sql = if t.is_active then execute c sql else (c, failed none)

  unfoldable pub savepoint : Connection d → Transaction → Text → Connection d × Status
  unfolding execute
  savepoint c t name = run_active c t (codes "SAVEPOINT " ++ quoted name)

  unfoldable pub release_savepoint : Connection d → Transaction → Text → Connection d × Status
  unfolding execute
  release_savepoint c t name = run_active c t (codes "RELEASE SAVEPOINT " ++ quoted name)

  unfoldable pub rollback_to_savepoint : Connection d → Transaction → Text → Connection d × Status
  unfolding execute
  rollback_to_savepoint c t name = run_active c t (codes "ROLLBACK TO SAVEPOINT " ++ quoted name)

  -- orm_transaction_finalize, for a transaction whose connection pointer is set.
  unfoldable pub finalize : Connection d → Transaction → Connection d
  unfolding rollback
  finalize c t = if t.is_active then (rollback c t).0 else c

  abbrev begin_after_level : Connection d × Status → Connection d × Begun
  begin_after_level (c, ok) = transaction_new c
  begin_after_level (c, failed e) = (c, refused e)

  abbrev level_after_begin : Transaction → Connection d × Status → Connection d × Begun
  level_after_begin t (c, ok) = (c, begun t)
  level_after_begin t (c, failed e) = ((rollback c t).0, refused e)

  abbrev postgres_begin : IsolationLevel → Connection d × Begun → Connection d × Begun
  postgres_begin level (c, begun t) = level_after_begin t (isolation_work c level true)
  postgres_begin level (c, refused e) = (c, refused e)

  -- orm_connection_begin_transaction_with_isolation. The object that is dropped after the rollback
  -- is inactive, so its finalizer does nothing.
  unfoldable pub begin_with_isolation : Connection d → IsolationLevel → Connection d × Begun
  unfolding transaction_new isolation_work rollback
  begin_with_isolation c level =
      if c.is_open && not c.in_transaction
      then (if is_postgres c.dialect_type
          then postgres_begin level (transaction_new c)
          else begin_after_level (isolation_work c level true))
      else (c, refused none)
