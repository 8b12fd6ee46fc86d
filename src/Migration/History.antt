-- ===== src/Migration/History.antt =====
-- migration/orm-migrator.c: a migration, the constructor of the migrator, and the bookkeeping table
-- `schema_migrations`: reading and checking it, and recording a step.
use orm_glib.Base.{
  ℕ, suc, Bool, true, false, not, ◌&&◌, Option, none, some, List, [], ◌∷◌, if◌then◌else◌, Text,
  codes, get_elem?, ◌++◌,
}
use orm_glib.Base.Int.{ℤ, pos, int_eq, int_ltb}
use orm_glib.Core.Value.{Value, integer, string, blob}
use orm_glib.Core.Platform.{Platform, Sign, same}
use orm_glib.Core.Error.{Error, Status, ok, failed}
use orm_glib.Engine.Driver.{
  Driver, DialectType, sqlite, postgres, mysql, is_postgres, QueryResult, rows, refused,
}
use orm_glib.Engine.Row.{Row, row_get_value, row_get_integer}
use orm_glib.Engine.Connection.{Connection, execute, execute_with_params, query}

-- A callback receives the connection; the dialect is the connection's own.
abbrev pub MigrationFunc : Driver → Type 0
MigrationFunc d = Connection d → Connection d × Status

-- OrmMigration.
pub record Migration (d : Driver) : Type 0 where
  pub version : ℤ
  pub name : Text
  pub up : Text
  pub down : Option Text
  pub checksum : Text
  pub up_func : Option (MigrationFunc d)
  pub down_func : Option (MigrationFunc d)

abbrev is_empty : Text → Bool
is_empty [] = true
is_empty (_ ∷ _) = false

module _ {d : Driver} (sha256 : Text → Text) where
  -- The strings are not NULL pointers; `sha256` is g_compute_checksum_for_string.
  unfoldable pub migration_new : ℤ → Text → Text → Option Text → Option (Migration d)
  migration_new version name up down =
      if int_ltb (pos 0) version && not (is_empty name) && not (is_empty up)
      then some (record {
        version = version;
        name = name;
        up = up;
        down = down;
        checksum = sha256 up;
        up_func = none;
        down_func = none;
      })
      else none

  abbrev with_callbacks :
      MigrationFunc d → Option (MigrationFunc d) → Option (Migration d) → Option (Migration d)
  with_callbacks up down none = none
  with_callbacks up down (some m) = some (record m { up_func = some up; down_func = down })

  unfoldable pub migration_new_callback :
      ℤ → Text → Text → MigrationFunc d → Option (MigrationFunc d) → Option (Migration d)
  unfolding migration_new
  migration_new_callback version name up_text up down =
      with_callbacks up down (migration_new version name up_text none)

module _ {d : Driver} where
  -- The loop of orm_migrator_new over the versions, from the second one on.
  unfoldable pub are_increasing : ℤ → List (Migration d) → Bool
  are_increasing last [] = true
  are_increasing last (m ∷ ms) = int_ltb last m.version && are_increasing m.version ms

  unfoldable pub are_ordered : List (Migration d) → Bool
  unfolding are_increasing
  are_ordered [] = true
  are_ordered (m ∷ ms) = are_increasing m.version ms

abbrev pub select_history : Text
select_history = codes "SELECT version, name, checksum FROM schema_migrations ORDER BY version"

-- The statement of record_migration, for PostgreSQL or not, down or not.
abbrev pub record_sql : Bool → Bool → Text
record_sql true true = codes "DELETE FROM schema_migrations WHERE version = $1"
record_sql false true = codes "DELETE FROM schema_migrations WHERE version = ?"
record_sql true false =
    codes "INSERT INTO schema_migrations (version, name, checksum, applied_at) "
    ++ codes "VALUES ($1, $2, $3, CURRENT_TIMESTAMP)"
record_sql false false =
    codes "INSERT INTO schema_migrations (version, name, checksum, applied_at) "
    ++ codes "VALUES (?, ?, ?, CURRENT_TIMESTAMP)"

-- The count of matched rows, or the error.
pub data History : Type 0 where
  history : ℕ → History
  broken : Option Error → History

abbrev pub is_zero : Sign → Bool
is_zero same = true
is_zero _ = false

module _ (p : Platform) where
  unfoldable pub text_matches : Option Value → Text → Bool
  text_matches (some (string s)) expected = is_zero (p.strcmp0 expected s)
  text_matches (some (blob b)) expected = is_zero (p.bytes_compare expected b)
  text_matches _ expected = false

  module _ {d : Driver} where
    unfoldable pub row_matches : Option (Migration d) → Row → Bool
    unfolding text_matches
    row_matches none row = false
    row_matches (some m) row =
        int_eq m.version (row_get_integer row 0)
        && text_matches (row_get_value row 1) m.name
        && text_matches (row_get_value row 2) m.checksum

    -- The while loop over the result. `ending` is orm_result_get_error after the last row.
    unfoldable pub match_rows : List (Migration d) → ℕ → List Row → Option Error → History
    unfolding row_matches
    match_rows migrations count [] none = history count
    match_rows migrations count [] (some e) = broken (some e)
    match_rows migrations count (row ∷ rest) ending =
        let later = match_rows migrations (suc count) rest ending in
        if row_matches (get_elem? migrations count) row
        then later
        else broken (some Error.integrity_error)

    abbrev pub match_result :
        List (Migration d) → Connection d × QueryResult → Connection d × History
    match_result migrations (c, rows rs ending) = (c, match_rows migrations 0 rs ending)
    match_result migrations (c, refused e) = (c, broken e)

    unfoldable pub read_history : List (Migration d) → Connection d → Connection d × History
    unfolding query match_rows
    read_history migrations c = match_result migrations (query c select_history)

module _ {d : Driver} where
  -- The parameters of the statement: the version alone for a down step.
  abbrev pub record_params : Migration d → Bool → List Value
  record_params m true = integer m.version ∷ []
  record_params m false = integer m.version ∷ string m.name ∷ string m.checksum ∷ []

  unfoldable pub record_migration :
      Connection d → DialectType → Migration d → Bool → Connection d × Status
  unfolding execute_with_params
  record_migration c type m down =
      execute_with_params c (record_sql (is_postgres type) down) (record_params m down)

  abbrev flag_if_ok : Bool → Connection d × Status → Connection d × Status
  flag_if_ok b (c, ok) = (record c { in_transaction = b }, ok)
  flag_if_ok b (c, failed e) = (c, failed e)

  unfoldable pub begin_migration : Connection d → DialectType → Connection d × Status
  unfolding execute
  begin_migration c mysql = (c, ok)
  begin_migration c sqlite = flag_if_ok true (execute c (codes "BEGIN IMMEDIATE"))
  begin_migration c postgres = flag_if_ok true (execute c (codes "BEGIN"))

  -- TRUE commits, FALSE rolls back.
  unfoldable pub end_migration : Connection d → DialectType → Bool → Connection d × Status
  unfolding execute
  end_migration c mysql commit = (c, ok)
  end_migration c _ true = flag_if_ok false (execute c (codes "COMMIT"))
  end_migration c _ false = flag_if_ok false (execute c (codes "ROLLBACK"))
