-- ===== src/Migration/Loop.antt =====
-- The middle of `run` in migration/orm-migrator.c: creating the bookkeeping table, and the loop that
-- applies one migration a round.
use orm_glib.Base.{
  ℕ, zero, suc, ◌-◌, Bool, true, false, Option, none, some, List, [], ◌∷◌, ◌++◌, if◌then◌else◌,
  Text, get_elem?, leb,
}
use orm_glib.Core.Platform.{Platform}
use orm_glib.Core.Error.{Error}
use orm_glib.Engine.Driver.{Driver, DialectType}
use orm_glib.Engine.Connection.{Connection, execute}
use orm_glib.Migration.History.{
  Migration, MigrationFunc, History, history, broken, read_history, record_migration,
  begin_migration, end_migration,
}
use orm_glib.Migration.Migrator.{
  Run, Direction, upward, stay, downward, Outcome, go, out, stuck, Round, again, finished, aborted,
  beyond, migration_applied, then_go, after_status, run_sql, create_history_sql, holds_transaction,
}

-- `direction == 0 || (direction > 0 ? count >= limit : count <= limit)`.
unfoldable pub is_done : Direction → ℕ → ℕ → Bool
is_done upward count limit = leb limit count
is_done stay count limit = true
is_done downward count limit = leb count limit

abbrev pub is_down : Direction → Bool
is_down downward = true
is_down _ = false

module _ {d : Driver} where
  -- begin_migration, then `transaction = type != ORM_DIALECT_MYSQL`.
  abbrev pub begin_step : DialectType → Run d → Outcome d
  begin_step type r =
      then_go (after_status r (begin_migration r.connection type))
        λ r. go (record r { transaction = holds_transaction type })

  -- end_migration with TRUE, then `transaction = FALSE`.
  abbrev pub commit_step : DialectType → Run d → Outcome d
  commit_step type r =
      then_go (after_status r (end_migration r.connection type true))
        λ r. go (record r { transaction = false })

  unfoldable pub create_history : DialectType → Run d → Outcome d
  unfolding begin_migration end_migration execute
  create_history type r =
      then_go (begin_step type r) λ r. then_go (run_sql create_history_sql r) (commit_step type)

  -- What a step runs: its callback, or its SQL, or nothing.
  abbrev pub step_of : Option (MigrationFunc d) → Option Text → Option (MigrationFunc d)
  step_of (some func) sql = some func
  step_of none (some sql) = some (λ c. execute c sql)
  step_of none none = none

  abbrev pub operation : Direction → Migration d → Option (MigrationFunc d)
  operation downward m = step_of m.down_func m.down
  operation _ m = step_of m.up_func (some m.up)

  abbrev pub chosen : Direction → ℕ → List (Migration d) → Option (Migration d)
  chosen downward count migrations = get_elem? migrations (count - 1)
  chosen _ count migrations = get_elem? migrations count

  abbrev pub run_operation : Option (MigrationFunc d) → Run d → Outcome d
  run_operation none r = out (record r { local_error = some Error.not_supported })
  run_operation (some func) r = after_status r (func r.connection)

  -- The step, its record and its commit; then the signal.
  unfoldable pub apply : DialectType → Direction → Migration d → Run d → Outcome d
  unfolding record_migration end_migration
  apply type direction m r =
      let r' = record r { migration = some m } in
      then_go (run_operation (operation direction m) r') λ r.
        then_go (after_status r (record_migration r.connection type m (is_down direction))) λ r.
          then_go (commit_step type r) λ r. go (record r {
            signals = r.signals ++ migration_applied m.version (is_down direction) ∷ [];
            migration = none;
          })

  abbrev pub to_round : (Run d → Round d) → Outcome d → Round d
  to_round f (go r) = f r
  to_round f (out r) = aborted r
  to_round f stuck = beyond

  abbrev pub apply_chosen : DialectType → Direction → Option (Migration d) → Run d → Round d
  apply_chosen type direction none r = beyond
  apply_chosen type direction (some m) r = to_round again (apply type direction m r)

  abbrev pub after_history :
      DialectType → Direction → ℕ → List (Migration d) → Run d → Connection d × History → Round d
  after_history type direction limit migrations r (c, history count) =
      let r' = record r { connection = c; count = count } in
      if is_done direction count limit
      then to_round finished (commit_step type r')
      else apply_chosen type direction (chosen direction count migrations) r'
  after_history type direction limit migrations r (c, broken e) =
      aborted (record r { connection = c; local_error = e })

  unfoldable pub round :
      Platform → DialectType → Direction → ℕ → List (Migration d) → Run d → Round d
  unfolding begin_migration end_migration read_history apply is_done
  round p type direction limit migrations r =
      to_round
        (λ r.
          after_history type direction limit migrations r (read_history p migrations r.connection))
        (begin_step type r)

  -- The next round waits for this one.
  abbrev pub after_round : (Run d → Outcome d) → Round d → Outcome d
  after_round next (again r) = next r
  after_round next (finished r) = go r
  after_round next (aborted r) = out r
  after_round next beyond = stuck

  unfoldable pub loop :
      Platform → DialectType → Direction → ℕ → List (Migration d) → ℕ → Run d → Outcome d
  loop p type direction limit migrations zero r = stuck
  loop p type direction limit migrations (suc fuel) r =
      after_round (λ r'. loop p type direction limit migrations fuel r')
        (round p type direction limit migrations r)
