-- ===== src/Migration/Samples.antt =====
-- The theorems on the migrator, at two migrations of which the second one cannot be applied.
use orm_glib.Base.{
  ℕ, zero, suc, ◌≤◌, ◌≡◌, refl, true, false, arith, Text, List, [], ◌∷◌, codes, ◌↔◌, inr, text_eq,
  is_some, subst, Option, none, some, map, length,
}
use orm_glib.Base.Int.{pos, int_eq, int_ltb}
use orm_glib.Core.Error.{Error, Status, ok, failed}
use orm_glib.Core.Value.Samples.{toy_platform, toy_platform_laws, strcmp}
use orm_glib.Engine.Driver.{sqlite, serializable}
use orm_glib.Engine.Connection.{idle, execute}
use orm_glib.Migration.History.{Migration, are_ordered, match_rows, history}
use orm_glib.Migration.Migrator.{Migrator, upward}
use orm_glib.Migration.Loop.{operation, round}
use orm_glib.Engine.Row.{row_get_integer}
use orm_glib.Migration.Run.{Report, run, up, fuel_for, limit_for}
use orm_glib.Migration.Entries.{Entry, encode, recorded, entry, insert_entry}
use orm_glib.Migration.Checks.{match_rows_iff}
use orm_glib.Migration.Database.{Respects, execute-Respects}
use orm_glib.Migration.Steps.{goal}
use orm_glib.Migration.Completion.{AllRespect}
use orm_glib.Migration.Tracking.{OpenNone, OpensNone, execute-OpensNone}
use orm_glib.Migration.Flags.{run_flags}
use orm_glib.Migration.Totality.{Settles, run_total}
use orm_glib.Migration.Toy.{toy_platform_prints, ToyDb, toy_driver, toy_history, bad_sql}

abbrev to_list : Option (Report toy_driver) → List (Report toy_driver)
to_list none = []
to_list (some r) = r ∷ []

abbrev toy_migration : ℕ → Text → Migration toy_driver
toy_migration version up = record {
  version = pos version;
  name = codes "m";
  up = up;
  down = some (codes "undo");
  checksum = up;
  up_func = none;
  down_func = none;
}

abbrev create_user : Migration toy_driver
create_user = toy_migration 1 (codes "CREATE TABLE user (id BIGINT)")

abbrev two_migrations : List (Migration toy_driver)
two_migrations = create_user ∷ toy_migration 7 bad_sql ∷ []

abbrev empty_db : ToyDb
empty_db = record { durable = []; visible = []; open_tx = false }

abbrev migrator : Migrator toy_driver
migrator = record {
  connection = record {
    db = empty_db;
    has_driver = true;
    dialect_type = sqlite;
    is_open = true;
    in_transaction = false;
    isolation_level = serializable;
    state = idle;
  };
  dialect = sqlite;
  migrations = two_migrations;
  running = false;
}

some_same : (a b : Migration toy_driver) → some a ≡ some b → a ≡ b
some_same a b e = cc

up_respect : AllRespect toy_history two_migrations upward
unfolding execute text_eq
up_respect zero m e =
    subst (λ m. Respects toy_history (operation upward m)) (some_same _ m e)
      (execute-Respects toy_history create_user.up λ db. refl)
up_respect (suc zero) m e =
    subst (λ m. Respects toy_history (operation upward m)) (some_same _ m e)
      (execute-Respects toy_history bad_sql λ db. refl)
up_respect (suc (suc i)) m e = cc

up_opens_none : OpenNone upward two_migrations
unfolding execute
up_opens_none zero m e =
    subst (λ m. OpensNone (operation upward m)) (some_same _ m e) (execute-OpensNone create_user.up)
up_opens_none (suc zero) m e =
    subst (λ m. OpensNone (operation upward m)) (some_same _ m e) (execute-OpensNone bad_sql)
up_opens_none (suc (suc i)) m e = cc

abbrev seen : Report toy_driver → Status × List Entry
seen r = (r.status, r.migrator.connection.db.durable)

-- The run stops behind the first migration.
two_ups :
    map seen (to_list (up toy_platform (inr none) migrator (pos 0)))
    ≡ (failed (some Error.query_failed), entry create_user ∷ []) ∷ []
unfolding up strcmp text_eq insert_entry int_ltb int_eq round row_get_integer
two_ups = refl

run_total_example :
    (report : Report toy_driver) × (run toy_platform
        (inr none)
        (fuel_for migrator)
        migrator
        (pos 0)
        upward
      ≡ some report)
    × Settles migrator toy_history upward 0
        (goal upward 0 (limit_for upward (pos 0) two_migrations))
        report
unfolding are_ordered strcmp text_eq recorded insert_entry execute int_ltb toy_history
run_total_example =
    run_total toy_platform (inr none) migrator toy_history toy_platform_laws toy_platform_prints
      refl upward (pos 0) 0 refl up_respect up_opens_none (omega arith)
      (record { durable = refl; idle = refl })

match_rows_iff_example :
    (match_rows toy_platform two_migrations 0 (map encode (entry create_user ∷ [])) none
      ≡ history 1)
    ↔ ((1 ≤ length two_migrations) × ((entry create_user ∷ []) ≡ recorded 1 two_migrations))
unfolding strcmp text_eq
match_rows_iff_example =
    match_rows_iff toy_platform toy_platform_laws two_migrations (entry create_user ∷ []) 1

abbrev report_of : Option (Report toy_driver) → Report toy_driver
report_of none = record {
  migrator = migrator;
  status = ok;
  signals = [];
  applied = [];
  pending = [];
}
report_of (some r) = r

report_of-some : (o : Option (Report toy_driver)) → is_some o ≡ true → o ≡ some (report_of o)
report_of-some none e = cc
report_of-some (some r) e = refl

run_flags_example :
    let report = report_of (run toy_platform (inr none) 3 migrator (pos 0) upward) in
    (report.migrator.connection.in_transaction ≡ false) × (report.migrator.running ≡ false)
unfolding run strcmp text_eq insert_entry int_ltb int_eq round row_get_integer
run_flags_example =
    run_flags toy_platform (inr none) 3 migrator (pos 0) upward
      (report_of (run toy_platform (inr none) 3 migrator (pos 0) upward)) up_opens_none refl
      (report_of-some (run toy_platform (inr none) 3 migrator (pos 0) upward) refl)
