-- ===== src/Engine/Transaction/Samples.antt =====
-- The theorems on transactions, on a PostgreSQL connection where every COMMIT is refused.
use orm_glib.Base.{
  true, false, List, [], ◌∷◌, ◌≡◌, ◌↔◌, refl, Text, codes, text_eq, none, some, if◌then◌else◌,
  arith,
}
use orm_glib.Base.Int.{pos}
use orm_glib.Core.Value.{Value}
use orm_glib.Core.Error.{Error, Status, ok, failed}
use orm_glib.Engine.Driver.{Driver, postgres, serializable, read_committed, rows}
use orm_glib.Engine.Connection.{Connection, idle}
use orm_glib.Engine.Transaction.{Transaction, commit, rollback, begin_with_isolation}
use orm_glib.Engine.Transaction.Safety.{
  commit-rollback_flags, World, Call, begin_call, commit_call, rollback_call, begin_level_call,
  finalize_call, close_call, savepoint_call, run, IsLinked, run-IsLinked,
}

-- The log of the statements, the last one first.
abbrev pub log_execute : List Text → Text → List Value → List Text × Status
unfolding text_eq
log_execute log sql params = (
  sql ∷ log,
  if text_eq sql (codes "COMMIT") then failed (some Error.constraint_violation) else ok,
)

abbrev pub log_driver : Driver
log_driver = record {
  Db = List Text;
  execute = log_execute;
  query = λ log sql _. (sql ∷ log, rows [] none);
  last_insert_id = λ _. pos 0;
  set_isolation_level = λ log _ _. (codes "SET TRANSACTION" ∷ log, ok);
  close = λ log. log;
}

abbrev pub connection : Connection log_driver
connection = record {
  db = [];
  has_driver = true;
  dialect_type = postgres;
  is_open = true;
  in_transaction = false;
  isolation_level = read_committed;
  state = idle;
}

abbrev busy_connection : Connection log_driver
busy_connection = record connection { in_transaction = true }

abbrev active : Transaction
active = record { is_active = true }

-- PostgreSQL sets the level inside of the transaction.
level_log :
    (begin_with_isolation connection serializable).0.db
    ≡ codes "SET TRANSACTION" ∷ codes "BEGIN" ∷ []
unfolding begin_with_isolation text_eq
level_log = refl

commit-rollback_flags_example :
    ((rollback busy_connection active).1.is_active ≡ false)
    × ((rollback busy_connection active).0.in_transaction ≡ false)
    × ((commit busy_connection active).1.is_active
        ≡ (commit busy_connection active).0.in_transaction)
    × (((commit busy_connection active).2 ≡ ok)
        ↔ ((commit busy_connection active).1.is_active ≡ false))
commit-rollback_flags_example = commit-rollback_flags busy_connection active refl refl

abbrev world : World log_driver
world = record { connection = connection; transaction = record { is_active = false } }

abbrev calls : List Call
calls =
    begin_call
    ∷ savepoint_call (codes "a")
    ∷ commit_call
    ∷ rollback_call
    ∷ begin_level_call serializable
    ∷ finalize_call
    ∷ close_call
    ∷ begin_call
    ∷ []

run-IsLinked_example : IsLinked (run world calls)
run-IsLinked_example =
    run-IsLinked world calls (record { coherent = ground arith; owned = λ e. cc })
