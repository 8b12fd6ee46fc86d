-- ===== src/Migration/Flags.antt =====
-- Whatever the driver answers, a run of the migrator leaves no transaction open on its connection.
use orm_glib.Base.{
  ℕ, Bool, true, false, Option, some, ◌≡◌, refl, arith, ◌⊎◌, inl, inr, Option-cases, codes,
}
use orm_glib.Base.Int.{ℤ}
use orm_glib.Core.Platform.{Platform}
use orm_glib.Core.Error.{Error}
use orm_glib.Engine.Driver.{Driver, DialectType, sqlite, postgres, mysql}
use orm_glib.Engine.Connection.{Connection, query}
use orm_glib.Migration.Migrator.{
  Migrator, Run, Direction, Outcome, go, out, stuck, lock_database, read_timeout, busy_timeout_sql,
}
use orm_glib.Migration.Loop.{create_history}
use orm_glib.Migration.Run.{
  Report, run, work, clean_up, roll_back, unlock, restore_timeout, conclude, start, report_outcome,
  limit_for,
}
use orm_glib.Migration.Outcomes.{then_go_rule}
use orm_glib.Migration.Tracking.{
  loop-Tracks, Tracks, Kept, OpenNone, run_sql-Tracks, create_history-Tracks, read_timeout-Tracks,
  query_flag,
}

module _ {d : Driver} where
  roll_back_flag :
      (p : Platform) (type : DialectType) (r : Run d)
      → Tracks p type r
      → (roll_back type r).connection.in_transaction ≡ false
  unfolding roll_back
  roll_back_flag p type r v = ground arith

  unlock_flag :
      (type : DialectType) (r : Run d) (fine : Bool)
      → r.connection.in_transaction ≡ false
      → (unlock type r fine).0.connection.in_transaction ≡ false
  unfolding unlock
  unlock_flag type r fine h = ground arith

  restore_flag :
      (r : Run d) (fine : Bool)
      → r.connection.in_transaction ≡ false
      → (restore_timeout r fine).0.connection.in_transaction ≡ false
  unfolding restore_timeout
  restore_flag r fine h = elim (Option-cases r.restore_timeout) [
    | inl e ↦ ground (arith, e)
    | inr (sql, e) ↦ ground (arith, e)
  ]

  conclude_flag :
      (self : Migrator d) (direction : Direction) (r : Run d × Bool)
      → (conclude self direction r).migrator.connection ≡ r.0.connection
  unfolding conclude
  conclude_flag self direction (r, true) = refl
  conclude_flag self direction (r, false) = refl

  clean_up_flag :
      (p : Platform) (self : Migrator d) (direction : Direction) (r : Run d) (fine : Bool)
      → Tracks p self.dialect r
      → (clean_up self direction r fine).migrator.connection.in_transaction ≡ false
  unfolding clean_up
  clean_up_flag p self direction r fine v = rw (conclude_flag self direction _) (
      restore_flag _ _ (
        unlock_flag self.dialect (roll_back self.dialect r) fine
          (roll_back_flag p self.dialect r v)))

  conclude_running :
      (self : Migrator d) (direction : Direction) (r : Run d × Bool)
      → (conclude self direction r).migrator.running ≡ false
  unfolding conclude
  conclude_running self direction (r, true) = refl
  conclude_running self direction (r, false) = refl

  clean_up_running :
      (self : Migrator d) (direction : Direction) (r : Run d) (fine : Bool)
      → (clean_up self direction r fine).migrator.running ≡ false
  unfolding clean_up
  clean_up_running self direction r fine = rw conclude_running

  lock_database-Tracks :
      (p : Platform) (connected : Connection d ⊎ Option Error) (type : DialectType) (r : Run d)
      → Tracks p type r
      → Kept p type (lock_database p connected type r)
  unfolding lock_database
  lock_database-Tracks p connected postgres r v = ground arith
  lock_database-Tracks p connected mysql r v = ground arith
  lock_database-Tracks p connected sqlite r v =
      then_go_rule (Unit {0}) (Tracks p sqlite) (Tracks p sqlite) (Tracks p sqlite)
        (read_timeout p r (query r.connection (codes "PRAGMA busy_timeout"))) _
        (read_timeout-Tracks p sqlite r (query r.connection (codes "PRAGMA busy_timeout"))
          (query_flag p sqlite r.connection _) v)
        (run_sql-Tracks p sqlite busy_timeout_sql)

  start-Tracks :
      (p : Platform) (type : DialectType) (c : Connection d)
      → c.in_transaction ≡ false
      → Tracks p type (start c)
  start-Tracks p type c h = ground arith

  pub work-Tracks :
      (p : Platform) (connected : Connection d ⊎ Option Error) (fuel : ℕ) (self : Migrator d)
      → (direction : Direction) (limit : ℕ) → OpenNone direction self.migrations
      → self.connection.in_transaction ≡ false
      → Kept p self.dialect (work p connected fuel self direction limit)
  unfolding work
  work-Tracks p connected fuel self direction limit none_opens h =
      let T = Tracks p self.dialect in
      then_go_rule (Unit {0}) T T T (lock_database p connected self.dialect (start self.connection))
        _ (lock_database-Tracks p connected self.dialect _ (start-Tracks p self.dialect _ h))
        λ r v.
          then_go_rule (Unit {0}) T T T (create_history self.dialect r) _
            (create_history-Tracks p self.dialect r v)
            λ r v. loop-Tracks p self.dialect direction limit self.migrations none_opens fuel r v

  report_flag :
      (p : Platform) (self : Migrator d) (direction : Direction) (o : Outcome d) (report : Report d)
      → Kept p self.dialect o
      → report_outcome self direction o ≡ some report
      → (report.migrator.connection.in_transaction ≡ false) × (report.migrator.running ≡ false)
  report_flag p self direction (go r) report v e =
      ground
        (arith, clean_up_flag p self direction r true v, clean_up_running self direction r true)
  report_flag p self direction (out r) report v e =
      ground
        (arith, clean_up_flag p self direction r false v, clean_up_running self direction r false)
  report_flag p self direction stuck report v e = cc

  -- Whatever the driver answers to each statement: if no operation of the migrations leaves a
  -- transaction open on a connection that had none, and the migrator's connection is in no
  -- transaction, then it is in none when status, up or down (`run`) gives its report, also after
  -- any failure, and `running` is as it was.
  pub run_flags :
      (p : Platform) (connected : Connection d ⊎ Option Error) (fuel : ℕ) (self : Migrator d)
      → (target : ℤ) (direction : Direction) (report : Report d)
      → OpenNone direction self.migrations
      → self.connection.in_transaction ≡ false
      → run p connected fuel self target direction ≡ some report
      → (report.migrator.connection.in_transaction ≡ false)
        × (report.migrator.running ≡ self.running)
  unfolding run
  run_flags p connected fuel self target direction report none_opens h e = ground (
    arith,
    report_flag p self direction
        (work p connected fuel self direction (limit_for direction target self.migrations)) report
        (work-Tracks p connected fuel self direction (limit_for direction target self.migrations)
          none_opens h),
  )
