-- ===== src/Engine/Transaction/Safety.antt =====
-- The transaction flag of the connection and the transaction object stay together.
use orm_glib.Base.{true, false, ◌↔◌, List, [], ◌∷◌, ◌≡◌, Text, arith}
use orm_glib.Core.Error.{Status, ok}
use orm_glib.Engine.Driver.{Driver, IsolationLevel}
use orm_glib.Engine.Connection.{Connection, execute, close}
use orm_glib.Engine.Connection.Safety.{IsCoherent}
use orm_glib.Engine.Transaction.{
  Transaction, Begun, begun, refused, transaction_new, commit, rollback, savepoint,
  release_savepoint, rollback_to_savepoint, finalize, begin_with_isolation,
}

-- What a caller that holds the result of a begin may rely on: a transaction in hand is active and
-- so is the connection's flag; with none in hand the flag is clear.
abbrev pub Holds : {d : Driver} → Connection d × Begun → Type 0
Holds (c, begun t) = (t.is_active ≡ true) × (c.in_transaction ≡ true)
Holds (c, refused e) = c.in_transaction ≡ false

module _ {d : Driver} (c : Connection d) where
  pub transaction_new-Holds : c.in_transaction ≡ false → Holds (transaction_new c)
  unfolding transaction_new
  transaction_new-Holds h = ground arith

  -- On a connection in no transaction, a begin at an isolation level that hands out a transaction
  -- hands out an active one and sets the connection's flag; if it fails, at whichever statement,
  -- the flag is clear.
  pub begin_with_isolation-Holds :
      (level : IsolationLevel) → c.in_transaction ≡ false → Holds (begin_with_isolation c level)
  unfolding begin_with_isolation
  begin_with_isolation-Holds level h = ground arith

  -- For an active transaction on a connection in a transaction: a rollback ends it and clears the
  -- connection's flag even if the statement fails; a commit keeps transaction and flag in step, and
  -- succeeds exactly if the transaction is over.
  pub commit-rollback_flags :
      (t : Transaction)
      → t.is_active ≡ true
      → c.in_transaction ≡ true
      → ((rollback c t).1.is_active ≡ false)
        × ((rollback c t).0.in_transaction ≡ false)
        × ((commit c t).1.is_active ≡ (commit c t).0.in_transaction)
        × (((commit c t).2 ≡ ok) ↔ ((commit c t).1.is_active ≡ false))
  unfolding rollback commit
  commit-rollback_flags t h k = ground arith

-- The calls that a client makes on one connection, with the transaction it was handed last.
pub data Call : Type 0 where
  begin_call commit_call rollback_call finalize_call close_call : Call
  begin_level_call : IsolationLevel → Call
  execute_call savepoint_call release_call rollback_to_call : Text → Call

pub record World (d : Driver) : Type 0 where
  pub connection : Connection d
  pub transaction : Transaction

abbrev with_begun : {d : Driver} → World d → Connection d × Begun → World d
with_begun w (c, begun t) = record { connection = c; transaction = t }
with_begun w (c, refused _) = record w { connection = c }

abbrev with_ended : {d : Driver} → Connection d × Transaction × Status → World d
with_ended (c, t, _) = record { connection = c; transaction = t }

module _ {d : Driver} where
  -- The finalizer leaves no transaction to call, which is an inactive one.
  pub step : World d → Call → World d
  step w begin_call = with_begun w (transaction_new w.connection)
  step w (begin_level_call level) = with_begun w (begin_with_isolation w.connection level)
  step w commit_call = with_ended (commit w.connection w.transaction)
  step w rollback_call = with_ended (rollback w.connection w.transaction)
  step w finalize_call = record {
    connection = finalize w.connection w.transaction;
    transaction = record { is_active = false };
  }
  step w close_call = record w { connection = close w.connection }
  step w (execute_call sql) = record w { connection = (execute w.connection sql).0 }
  step w (savepoint_call name) = record w {
    connection = (savepoint w.connection w.transaction name).0;
  }
  step w (release_call name) = record w {
    connection = (release_savepoint w.connection w.transaction name).0;
  }
  step w (rollback_to_call name) = record w {
    connection = (rollback_to_savepoint w.connection w.transaction name).0;
  }

  pub run : World d → List Call → World d
  run w [] = w
  run w (call ∷ calls) = run (step w call) calls

-- The connection is coherent, and a transaction that it counts as open is active in the client's
-- hands, so that the client can end it.
pub record IsLinked {d : Driver} (w : World d) : Type 0 where
  pub coherent : IsCoherent w.connection
  pub owned : w.connection.in_transaction ≡ true → w.transaction.is_active ≡ true

module _ {d : Driver} where
  step-IsLinked : (w : World d) → IsLinked w → (call : Call) → IsLinked (step w call)
  unfolding step transaction_new commit rollback savepoint release_savepoint rollback_to_savepoint
      finalize close execute begin_with_isolation
  step-IsLinked w v begin_call = ground arith
  step-IsLinked w v (begin_level_call level) = ground arith
  step-IsLinked w v commit_call = ground arith
  step-IsLinked w v rollback_call = ground arith
  step-IsLinked w v finalize_call = ground arith
  step-IsLinked w v close_call = ground arith
  step-IsLinked w v (execute_call sql) = ground arith
  step-IsLinked w v (savepoint_call name) = ground arith
  step-IsLinked w v (release_call name) = ground arith
  step-IsLinked w v (rollback_to_call name) = ground arith

  -- If the connection counts as open exactly if its driver is there, is in a transaction only while
  -- it is open, and then has its client hold an active transaction, then so it is after any sequence
  -- of begins (at a level or not), commits, rollbacks, savepoint calls, statements, finalizations
  -- and closings, whatever the driver answers.
  pub run-IsLinked : (w : World d) (calls : List Call) → IsLinked w → IsLinked (run w calls)
  unfolding run
  run-IsLinked w [] v = v
  run-IsLinked w (call ∷ calls) v = run-IsLinked (step w call) calls (step-IsLinked w v call)
