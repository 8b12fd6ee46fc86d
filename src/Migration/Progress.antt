-- ===== src/Migration/Progress.antt =====
-- The parts of `run`, seen from the bookkeeping table: each transaction commits one record more, or
-- one less, or nothing.
use orm_glib.Base.{true, false, Option, none, some, List, [], ◌≡◌, arith, ◌⊎◌, codes}
use orm_glib.Core.Platform.{Platform}
use orm_glib.Core.Error.{Error}
use orm_glib.Engine.Driver.{Driver, DialectType}
use orm_glib.Engine.Connection.{Connection, execute}
use orm_glib.Migration.History.{
  Migration, MigrationFunc, record_migration, begin_migration, end_migration,
}
use orm_glib.Migration.Migrator.{
  Run, lock_database, lock_sql, busy_timeout_sql, create_history_sql, run_sql, after_status,
  holds_transaction,
}
use orm_glib.Migration.Loop.{begin_step, commit_step, run_operation}
use orm_glib.Migration.Outcomes.{OnOutcome}
use orm_glib.Migration.Entries.{Entry, insert_entry, remove_version, entry}
use orm_glib.Migration.Database.{HistoryDb, neutral_lock, neutral_timeout, neutral_create, Respects}

module _ {d : Driver} {type : DialectType} (h : HistoryDb d type) (es : List Entry) where
  -- Between two transactions, with `es` committed.
  pub record At (r : Run d) : Type 0 where
    pub durable : h.durable r.connection.db ≡ es
    pub idle : h.open_tx r.connection.db ≡ false

  -- `es` is committed, whatever else holds.
  pub record Settled (r : Run d) : Type 0 where
    pub durable : h.durable r.connection.db ≡ es

  -- In a transaction that sees `vs`.
  pub record Within (vs : List Entry) (r : Run d) : Type 0 where
    pub durable : h.durable r.connection.db ≡ es
    pub visible : h.visible r.connection.db ≡ vs
    pub open_tx : h.open_tx r.connection.db ≡ true

  pub begin_step_lem :
      (r : Run d)
      → holds_transaction type ≡ true
      → At r
      → OnOutcome ⊥ (Within es) Settled (begin_step type r)
  unfolding begin_migration
  begin_step_lem r t v = ground (arith, h.begin_law r.connection.db)

  pub create_lem :
      (vs : List Entry) (r : Run d)
      → Within vs r
      → OnOutcome ⊥ (Within vs) Settled (run_sql create_history_sql r)
  unfolding execute
  create_lem vs r v =
      ground (arith, h.neutral_law r.connection.db create_history_sql neutral_create)

  pub lock_lem :
      (p : Platform) (connected : Connection d ⊎ Option Error) (r : Run d)
      → holds_transaction type ≡ true
      → At r
      → OnOutcome ⊥ At Settled (lock_database p connected type r)
  unfolding lock_database
  lock_lem p connected r t v =
      let db = r.connection.db in
      let db' = (d.query db (codes "PRAGMA busy_timeout") []).0 in
      ground (
        arith,
        h.neutral_law db lock_sql neutral_lock,
        h.timeout_law db,
        h.neutral_law db' busy_timeout_sql neutral_timeout,
      )

module _ {d : Driver} {type : DialectType} (h : HistoryDb d type) (es vs : List Entry) where
  -- A commit makes what the transaction saw the committed table, or changes nothing.
  pub commit_lem :
      (r : Run d)
      → holds_transaction type ≡ true
      → Within h es vs r
      → OnOutcome ⊥ (At h vs) (Settled h es) (commit_step type r)
  unfolding end_migration execute
  commit_lem r t v = ground (arith, h.commit_law r.connection.db)

  pub operation_lem :
      (o : Option (MigrationFunc d)) (r : Run d)
      → Respects h o
      → Within h es vs r
      → OnOutcome ⊥ (Within h es vs) (Settled h es) (run_operation o r)
  operation_lem none r k v = ground arith
  operation_lem (some f) r k v = ground (arith, k r.connection)

  pub insert_lem :
      (m : Migration d) (r : Run d)
      → Within h es vs r
      → OnOutcome ⊥
          (Within h es (insert_entry (entry m) vs))
          (Settled h es)
          (after_status r (record_migration r.connection type m false))
  unfolding record_migration
  insert_lem m r v = ground (arith, h.insert_law r.connection.db m)

  pub delete_lem :
      (m : Migration d) (r : Run d)
      → Within h es vs r
      → OnOutcome ⊥
          (Within h es (remove_version m.version vs))
          (Settled h es)
          (after_status r (record_migration r.connection type m true))
  unfolding record_migration
  delete_lem m r v = ground (arith, h.delete_law r.connection.db m)
