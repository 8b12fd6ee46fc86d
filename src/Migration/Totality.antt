-- ===== src/Migration/Totality.antt =====
-- `run` of migration/orm-migrator.c as a whole: it ends, and it leaves a history that is a start of
-- the list of migrations, at the target if it succeeds.
use orm_glib.Base.{
  sym, Text, none, subst, ℕ, ◌≤◌, ◌<◌, true, false, Option, some, List, ◌≡◌, refl, ◌∙◌, arith, ◌⊎◌,
  if_rule, length, not, ◌||◌,
}
use orm_glib.Base.Int.{ℤ}
use orm_glib.Core.Platform.{Platform, PlatformLaws}
use orm_glib.Core.Error.{Error, ok}
use orm_glib.Engine.Driver.{Driver}
use orm_glib.Engine.Connection.{Connection}
use orm_glib.Migration.History.{are_ordered}
use orm_glib.Migration.Migrator.{
  Migrator, Run, Direction, Outcome, go, out, stuck, holds_transaction, lock_database,
}
use orm_glib.Migration.Loop.{create_history, begin_step}
use orm_glib.Migration.Migrator.{run_sql, create_history_sql}
use orm_glib.Migration.Run.{
  Report, run, work, clean_up, start, report_outcome, limit_for, is_unknown, fuel_for, refuse,
}
use orm_glib.Migration.Outcomes.{OnOutcome, then_go_rule, weaken_rule}
use orm_glib.Migration.Entries.{Entry, recorded}
use orm_glib.Migration.Database.{HistoryDb, PrintsDecimal, IsHarmless, Neutral, neutral_restore}
use orm_glib.Migration.Progress.{
  At, Settled, Within, begin_step_lem, create_lem, lock_lem, commit_lem,
}
use orm_glib.Migration.Steps.{goal, remaining, goal_between}
use orm_glib.Migration.Completion.{AllRespect, Partway, Complete, start-Partway, loop_lem}
use orm_glib.Migration.Tracking.{IsRestorable, Tracks, OpenNone}
use orm_glib.Migration.Flags.{work-Tracks}
use orm_glib.Migration.CleanUp.{
  Lists, clean_up-Lists, limit_bound, remaining_bound, clean_up_durable, clean_up_failed,
}

-- What a run leaves: the first k migrations recorded as committed, with k between n and the goal,
-- and the goal if the run succeeded, with the lists of status told from there.
pub record Settles {d : Driver} (self : Migrator d) (h : HistoryDb d self.dialect)
    (direction : Direction) (n target : ℕ) (report : Report d) : Type 0 where
  pub reached : ℕ
  pub committed : h.durable report.migrator.connection.db ≡ recorded reached self.migrations
  pub between : ((n ≤ reached) × (reached ≤ target)) ⊎ ((target ≤ reached) × (reached ≤ n))
  pub exact : report.status ≡ ok → reached ≡ target
  pub lists : Lists self direction target report

module _ {d : Driver} (p : Platform) (connected : Connection d ⊎ Option Error) (self : Migrator d)
    (h : HistoryDb d self.dialect) (l : PlatformLaws p) (prints : PrintsDecimal p)
    (t : holds_transaction self.dialect ≡ true) where
  -- The code puts a number that it has read behind the statement.
  restorable-IsHarmless : (o : Option Text) → IsRestorable p o → IsHarmless o
  restorable-IsHarmless none v = v
  restorable-IsHarmless (some sql) (n, e) =
      subst Neutral (sym e) (neutral_restore (p.int_to_text n) (prints.prints n))

  create_history_lem :
      (es : List Entry) (r : Run d)
      → At h es r
      → OnOutcome ⊥ (At h es) (Settled h es) (create_history self.dialect r)
  unfolding create_history
  create_history_lem es r v =
      then_go_rule ⊥ (Within h es es) (At h es) (Settled h es) (begin_step self.dialect r) _
        (begin_step_lem h es r t v)
        λ r v.
          then_go_rule ⊥ (Within h es es) (At h es) (Settled h es) (run_sql create_history_sql r) _
            (create_lem h es es r v) (λ r v. commit_lem h es es r t v)

  work_lem :
      (direction : Direction) (limit fuel n : ℕ)
      → are_ordered self.migrations ≡ true
      → AllRespect h self.migrations direction
      → n ≤ length self.migrations
      → limit ≤ length self.migrations
      → remaining direction n limit < fuel
      → At h (recorded n self.migrations) (start self.connection)
      → OnOutcome ⊥
          (Complete h self.migrations direction limit n)
          (Partway h self.migrations direction limit n)
          (work p connected fuel self direction limit)
  unfolding work
  work_lem direction limit fuel n ordered k b b' f v =
      let es = recorded n self.migrations in
      let partway = start-Partway h p l t self.migrations ordered direction limit n in
      let C = Complete h self.migrations direction limit n in
      let W = Partway h self.migrations direction limit n in
      then_go_rule ⊥ (At h es) C W (lock_database p connected self.dialect (start self.connection))
        _
        (weaken_rule ⊥ (At h es) (Settled h es) _ _
          (lock_database p connected self.dialect (start self.connection)) (λ r v. v) partway
          (lock_lem h es p connected (start self.connection) t v))
        λ r v.
          then_go_rule ⊥ (At h es) C W (create_history self.dialect r) _
            (weaken_rule ⊥ (At h es) (Settled h es) _ _ (create_history self.dialect r) (λ r v. v)
              partway (create_history_lem es r v))
            λ r v. loop_lem h p l t self.migrations ordered direction limit fuel n r k b b' f v

  report_lem :
      (direction : Direction) (limit n : ℕ) (o : Outcome d)
      → OnOutcome ⊥
          (Complete h self.migrations direction limit n)
          (Partway h self.migrations direction limit n)
          o
      → OnOutcome (Unit {0}) (Tracks p self.dialect) (Tracks p self.dialect) o
      → (report : Report d) × (report_outcome self direction o ≡ some report)
        × Settles self h direction n (goal direction n limit) report
  report_lem direction limit n (go r) v w = (
    clean_up self direction r true,
    refl,
    record {
      reached = goal direction n limit;
      committed =
          clean_up_durable self direction h r true
            (restorable-IsHarmless r.restore_timeout w.restorable)
          ∙ v.at.durable;
      between = ground (arith, goal_between direction limit n);
      exact = λ _. refl;
      lists =
          subst (λ k. Lists self direction k (clean_up self direction r true)) v.counted
            (clean_up-Lists self direction r true);
    },
  )
  report_lem direction limit n (out r) v w = (
    clean_up self direction r false,
    refl,
    record {
      reached = v.reached;
      committed =
          clean_up_durable self direction h r false
            (restorable-IsHarmless r.restore_timeout w.restorable)
          ∙ v.settled;
      between = v.between;
      exact = λ e. absurd (clean_up_failed self direction r e);
      lists = λ e. absurd (clean_up_failed self direction r e);
    },
  )
  report_lem direction limit n stuck v w = absurd v

  refused_lem :
      (direction : Direction) (limit n : ℕ)
      → At h (recorded n self.migrations) (start self.connection)
      → (report : Report d) × (refuse self ≡ some report)
        × Settles self h direction n (goal direction n limit) report
  refused_lem direction limit n v = (
    _,
    refl,
    record {
      reached = n;
      committed = v.durable;
      between = ground (arith, goal_between direction limit n);
      exact = λ e. cc;
      lists = λ e. cc;
    },
  )

  -- On SQLite and PostgreSQL (`holds_transaction`), on a database that treats the statements of the
  -- migrator as these two do, where numbers are printed in decimal, for migrations in the order of
  -- their versions, none of whose steps of the direction (for status, none of whose up steps)
  -- touches the bookkeeping table or ends or leaves open a transaction, and for a history that is the
  -- first n of them, with no transaction open: status, up and down
  -- (`run`, with a round for each migration and one more) come to an end without reading beyond the
  -- array. Then the committed history is the first k migrations, with k between n and the goal,
  -- whichever statements have failed, and k is the goal if success was reported;
  -- the two arrays of status are then the versions of the first k migrations and of the others. The
  -- goal is n for status, the limit of the target for up and down, and n if it lies beyond that.
  pub run_total :
      (direction : Direction) (target : ℤ) (n : ℕ)
      → are_ordered self.migrations ≡ true
      → AllRespect h self.migrations direction
      → OpenNone direction self.migrations
      → n ≤ length self.migrations
      → At h (recorded n self.migrations) (start self.connection)
      → (report : Report d) × (run p connected (fuel_for self) self target direction ≡ some report)
        × Settles self h direction n
            (goal direction n (limit_for direction target self.migrations))
            report
  unfolding run
  run_total direction target n ordered k none_opens b v =
      let limit = limit_for direction target self.migrations in
      let refused = refused_lem direction limit n v in
      let bound = limit_bound direction target self.migrations in
      let c = self.connection in
      let result =
        report_outcome self direction (work p connected (fuel_for self) self direction limit) in
      let P = λ (o : Option (Report d)).
        (report : Report d) × (o ≡ some report)
        × Settles self h direction n (goal direction n limit) report in
      if_rule P (not c.is_open || c.in_transaction) (refuse self) _ (λ _. refused)
        λ e.
          if_rule P (is_unknown target self.migrations) (refuse self) _ (λ _. refused)
            λ e'.
              if_rule P self.running (refuse self) result (λ _. refused)
                λ e''.
                  report_lem direction limit n
                    (work p connected (fuel_for self) self direction limit)
                    (work_lem direction limit (fuel_for self) n ordered k b bound
                      (remaining_bound direction n limit (length self.migrations) b bound) v)
                    (work-Tracks p connected (fuel_for self) self direction limit none_opens
                      (ground (arith, e)))
