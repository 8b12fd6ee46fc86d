-- ===== src/Migration/Run.antt =====
-- `run` of migration/orm-migrator.c: the checks in front, the label `out`, and the three operations
-- of OrmMigrator.
use orm_glib.Base.{
  ℕ, suc, Bool, true, false, not, ◌&&◌, ◌||◌, Option, none, some, List, [], ◌∷◌, ◌++◌, ◌⊎◌,
  if◌then◌else◌, ◌==◌, Text, length, take, drop, map,
}
use orm_glib.Base.Int.{ℤ, pos, int_eq, int_ltb}
use orm_glib.Core.Platform.{Platform}
use orm_glib.Core.Error.{Error, Status, ok, failed}
use orm_glib.Engine.Driver.{Driver, DialectType, is_postgres}
use orm_glib.Engine.Connection.{Connection, execute, close}
use orm_glib.Migration.History.{Migration, end_migration, are_ordered}
use orm_glib.Migration.Migrator.{
  Migrator, Run, Direction, upward, stay, downward, Outcome, go, out, stuck, Signal,
  migration_failed, then_go, lock_database, unlock_sql,
}
use orm_glib.Migration.Loop.{create_history, loop}

-- What a call gives: the migrator afterwards, the gboolean with the GError, the signals, and the
-- two arrays of orm_migrator_status.
pub record Report (d : Driver) : Type 0 where
  pub migrator : Migrator d
  pub status : Status
  pub signals : List Signal
  pub applied : List ℤ
  pub pending : List ℤ

abbrev first_error : Option Error → Option Error → Option Error
first_error none e = e
first_error (some e) _ = some e

abbrev or_execute : Option Error → Error
or_execute none = Error.execute
or_execute (some e) = e

abbrev pub is_status : Direction → Bool
is_status stay = true
is_status _ = false

module _ {d : Driver} where
  -- orm_migrator_new on migrations that are not NULL.
  unfoldable pub migrator_new : Connection d → List (Migration d) → Option (Migrator d)
  unfolding are_ordered
  migrator_new c migrations =
      if are_ordered migrations
      then some (record {
        connection = c;
        dialect = c.dialect_type;
        migrations = migrations;
        running = false;
      })
      else none

  -- The loop that looks for the target: one more than the last index with its version, from `i` on.
  unfoldable pub find_limit : ℤ → ℕ → ℕ → List (Migration d) → ℕ
  find_limit target i limit [] = limit
  find_limit target i limit (m ∷ ms) =
      find_limit target (suc i) (if int_eq m.version target then suc i else limit) ms

  abbrev pub start : Connection d → Run d
  start c = record {
    connection = c;
    locker = none;
    restore_timeout = none;
    locked = false;
    transaction = false;
    migration = none;
    count = 0;
    local_error = none;
    signals = [];
  }

  -- `if (transaction && !end_migration (self, type, FALSE, NULL)) close`.
  abbrev after_rollback : Run d → Connection d × Status → Run d
  after_rollback r (c, ok) = record r { connection = c }
  after_rollback r (c, failed e) = record r { connection = close c }

  abbrev after_unlock : Run d → Bool → Connection d × Status → Run d × Bool
  after_unlock r fine (c, ok) = (record r { connection = c }, fine)
  after_unlock r fine (c, failed e) =
      (record r { connection = close c; local_error = first_error r.local_error e }, false)

  abbrev after_restore : Run d → Bool → Connection d × Status → Run d × Bool
  after_restore r fine (c, ok) = (record r { connection = c }, fine)
  after_restore r fine (c, failed e) =
      (record r { connection = c; local_error = first_error r.local_error e }, false)

  unfoldable pub roll_back : DialectType → Run d → Run d
  unfolding end_migration close
  roll_back type r =
      if r.transaction then after_rollback r (end_migration r.connection type false) else r

  unfoldable pub unlock : DialectType → Run d → Bool → Run d × Bool
  unfolding execute close
  unlock type r fine =
      if r.locked && is_postgres type
      then after_unlock r fine (execute r.connection unlock_sql)
      else (r, fine)

  abbrev pub close_locker : Option (Connection d) → Option (Connection d)
  close_locker none = none
  close_locker (some c) = some (close c)

  abbrev pub restore : Run d → Bool → Option Text → Run d × Bool
  restore r fine none = (r, fine)
  restore r fine (some sql) =
      if r.connection.is_open then after_restore r fine (execute r.connection sql) else (r, fine)

  unfoldable pub restore_timeout : Run d → Bool → Run d × Bool
  unfolding execute
  restore_timeout r fine = restore r fine r.restore_timeout

  abbrev failure_signal : Option (Migration d) → Error → List Signal
  failure_signal none e = []
  failure_signal (some m) e = migration_failed m.version e ∷ []

  abbrev pub versions : List (Migration d) → List ℤ
  versions = map λ m. m.version

  -- The end of `run`: the error and its signal, or the arrays.
  unfoldable pub conclude : Migrator d → Direction → Run d × Bool → Report d
  conclude self direction (r, true) = record {
    migrator = record self { connection = r.connection; running = false };
    status = ok;
    signals = r.signals;
    applied = if is_status direction then versions (take r.count self.migrations) else [];
    pending = if is_status direction then versions (drop r.count self.migrations) else [];
  }
  conclude self direction (r, false) = record {
    migrator = record self { connection = r.connection; running = false };
    status = failed (some (or_execute r.local_error));
    signals = r.signals ++ failure_signal r.migration (or_execute r.local_error);
    applied = [];
    pending = [];
  }

  -- The label `out`.
  unfoldable pub clean_up : Migrator d → Direction → Run d → Bool → Report d
  unfolding roll_back unlock restore_timeout conclude close
  clean_up self direction r fine =
      let (r, fine) = unlock self.dialect (roll_back self.dialect r) fine in
      let r = record r { locker = close_locker r.locker } in
      conclude self direction (restore_timeout r fine)

  abbrev pub report_outcome : Migrator d → Direction → Outcome d → Option (Report d)
  report_outcome self direction (go r) = some (clean_up self direction r true)
  report_outcome self direction (out r) = some (clean_up self direction r false)
  report_outcome self direction stuck = none

  abbrev pub refuse : Migrator d → Option (Report d)
  refuse self = some (record {
    migrator = self;
    status = failed (some Error.invalid_operation);
    signals = [];
    applied = [];
    pending = [];
  })

  -- `limit` for a target that was found, or for 0.
  abbrev pub limit_for : Direction → ℤ → List (Migration d) → ℕ
  limit_for upward target migrations =
      if int_eq target (pos 0) then length migrations else find_limit target 0 0 migrations
  limit_for _ target migrations = find_limit target 0 0 migrations

  -- `target < 0 || (target != 0 && limit == 0)`.
  abbrev pub is_unknown : ℤ → List (Migration d) → Bool
  is_unknown target migrations =
      int_ltb target (pos 0)
      || (not (int_eq target (pos 0)) && find_limit target 0 0 migrations == 0)

  -- A round for each migration, and the one that finds nothing left to do.
  abbrev pub fuel_for : Migrator d → ℕ
  fuel_for self = suc (length self.migrations)

module _ {d : Driver} (p : Platform) (connected : Connection d ⊎ Option Error) where
  -- From the lock to the label `out`, on `fuel` rounds.
  unfoldable pub work : ℕ → Migrator d → Direction → ℕ → Outcome d
  unfolding lock_database create_history loop
  work fuel self direction limit =
      then_go (lock_database p connected self.dialect (start self.connection)) λ r.
        then_go (create_history self.dialect r)
          λ r. loop p self.dialect direction limit self.migrations fuel r

  -- `none` tells that the fuel has ended, or that an array was read out of its bounds. The flag
  -- `running` is set and cleared on one thread here, so it is found clear.
  unfoldable pub run : ℕ → Migrator d → ℤ → Direction → Option (Report d)
  unfolding work clean_up find_limit
  run fuel self target direction =
      if not self.connection.is_open || self.connection.in_transaction
      then refuse self
      else if is_unknown target self.migrations
      then refuse self
      else if self.running
      then refuse self
      else report_outcome self direction
          (work fuel self direction (limit_for direction target self.migrations))

  unfoldable pub status : Migrator d → Option (Report d)
  unfolding run
  status self = run (fuel_for self) self (pos 0) stay

  unfoldable pub up : Migrator d → ℤ → Option (Report d)
  unfolding run
  up self target = run (fuel_for self) self target upward

  unfoldable pub down : Migrator d → ℤ → Option (Report d)
  unfolding run
  down self target = run (fuel_for self) self target downward
