-- ===== src/Migration/Tracking.antt =====
-- The flag of the connection and the local `transaction` of `run`, through the lock, the bookkeeping
-- table and the loop of migration/orm-migrator.c.
use orm_glib.Base.{
  ℕ, ◌-◌, Bool-cases, zero, suc, Bool, true, Option, none, some, List, ◌≡◌, refl, arith, inl, inr,
  get_elem?, Text, codes, ◌++◌,
}
use orm_glib.Core.Platform.{Platform}
use orm_glib.Base.Int.{ℤ}
use orm_glib.Core.Value.{Value, get_integer}
use orm_glib.Engine.Driver.{Driver, DialectType, QueryResult, rows, refused}
use orm_glib.Engine.Connection.{Connection, execute, query}
use orm_glib.Migration.History.{
  Migration, MigrationFunc, History, history, broken, read_history, record_migration,
  begin_migration, end_migration,
}
use orm_glib.Migration.Migrator.{
  Run, Direction, upward, stay, downward, Outcome, again, finished, holds_transaction, run_sql,
  after_status, create_history_sql, scalar, save_timeout, read_timeout,
}
use orm_glib.Migration.Loop.{
  create_history, loop, round, apply, begin_step, commit_step, operation, chosen, is_done, is_down,
  run_operation, apply_chosen, after_history,
}
use orm_glib.Migration.Outcomes.{OnOutcome, OnRound, then_go_rule, to_round_rule, loop_rule}

abbrev pub IsRestorable : Platform → Option Text → Type 0
IsRestorable p none = Unit {0}
IsRestorable p (some sql) = (n : ℤ) × (sql ≡ codes "PRAGMA busy_timeout = " ++ p.int_to_text n)

-- The connection's flag is set only while the local `transaction` is, which stays clear on MySQL;
-- and the statement that is kept for the end sets the busy timeout to a number.
pub record Tracks {d : Driver} (p : Platform) (type : DialectType) (r : Run d) : Type 0 where
  pub flagged : r.connection.in_transaction ≡ true → r.transaction ≡ true
  pub dialect : r.transaction ≡ true → holds_transaction type ≡ true
  pub restorable : IsRestorable p r.restore_timeout

abbrev pub Kept : {d : Driver} → Platform → DialectType → Outcome d → Type 0
Kept p type = OnOutcome (Unit {0}) (Tracks p type) (Tracks p type)

-- The operation opens no transaction.
abbrev pub OpensNone : {d : Driver} → Option (MigrationFunc d) → Type 0
OpensNone none = Unit {0}
OpensNone (some f) = (c : Connection _) → (f c).0.in_transaction ≡ true → c.in_transaction ≡ true

module _ {d : Driver} where
  -- No operation of the migrations opens a transaction.
  abbrev pub OpenNone : Direction → List (Migration d) → Type 0
  OpenNone direction migrations =
      (i : ℕ) (m : Migration d)
      → get_elem? migrations i ≡ some m
      → OpensNone (operation direction m)

  pub execute-OpensNone : (sql : Text) → OpensNone {d = d} (some (λ c. execute c sql))
  unfolding execute
  execute-OpensNone sql c h = ground arith

  pub chosen-OpensNone :
      (direction : Direction) (migrations : List (Migration d)) (count : ℕ) (m : Migration d)
      → OpenNone direction migrations
      → chosen direction count migrations ≡ some m
      → OpensNone (operation direction m)
  chosen-OpensNone upward migrations count m h e = h count m e
  chosen-OpensNone stay migrations count m h e = h count m e
  chosen-OpensNone downward migrations count m h e = h (count - 1) m e

module _ {d : Driver} (p : Platform) (type : DialectType) where
  pub begin_step-Tracks : (r : Run d) → Tracks p type r → Kept p type (begin_step type r)
  unfolding begin_migration
  begin_step-Tracks r v = ground arith

  pub run_sql-Tracks : (sql : Text) (r : Run d) → Tracks p type r → Kept p type (run_sql sql r)
  unfolding execute
  run_sql-Tracks sql r v = ground arith

  pub commit_step-Tracks : (r : Run d) → Tracks p type r → Kept p type (commit_step type r)
  unfolding end_migration
  commit_step-Tracks r v = ground arith

  pub create_history-Tracks : (r : Run d) → Tracks p type r → Kept p type (create_history type r)
  unfolding create_history
  create_history-Tracks r v =
      then_go_rule (Unit {0}) (Tracks p type) (Tracks p type) (Tracks p type) (begin_step type r) _
        (begin_step-Tracks r v)
        λ r v.
          then_go_rule (Unit {0}) (Tracks p type) (Tracks p type) (Tracks p type)
            (run_sql create_history_sql r) _ (run_sql-Tracks create_history_sql r v)
            commit_step-Tracks

  pub save_timeout-Tracks :
      (v : Option Value) (r : Run d) → Tracks p type r → Kept p type (save_timeout p v r)
  save_timeout-Tracks none r t = ground arith
  save_timeout-Tracks (some v) r t = record {
    flagged = t.flagged;
    dialect = t.dialect;
    restorable = (get_integer v, refl);
  }

  pub read_timeout-Tracks :
      (r : Run d) (q : Connection d × QueryResult)
      → (q.0.in_transaction ≡ true → r.connection.in_transaction ≡ true)
      → Tracks p type r
      → Kept p type (read_timeout p r q)
  read_timeout-Tracks r (c, rows rs ending) h t =
      save_timeout-Tracks (scalar rs) (record r { connection = c }) (ground arith)
  read_timeout-Tracks r (c, refused e) h t = ground arith

  pub query_flag :
      (c : Connection d) (sql : Text)
      → (query c sql).0.in_transaction ≡ true
      → c.in_transaction ≡ true
  unfolding query
  query_flag c sql h = ground arith

  pub record-Tracks :
      (m : Migration d) (down : Bool) (r : Run d)
      → Tracks p type r
      → Kept p type (after_status r (record_migration r.connection type m down))
  unfolding record_migration
  record-Tracks m down r v = ground arith

  pub run_operation-Tracks :
      (o : Option (MigrationFunc d)) (r : Run d)
      → OpensNone o
      → Tracks p type r
      → Kept p type (run_operation o r)
  run_operation-Tracks none r h v = ground arith
  run_operation-Tracks (some f) r h v = ground (arith, h r.connection)

  pub apply-Tracks :
      (direction : Direction) (m : Migration d) (r : Run d)
      → OpensNone (operation direction m)
      → Tracks p type r
      → Kept p type (apply type direction m r)
  unfolding apply
  apply-Tracks direction m r h v =
      let T = Tracks p type in
      then_go_rule (Unit {0}) T T T
        (run_operation (operation direction m) (record r { migration = some m })) _
        (run_operation-Tracks _ _ h (ground arith))
        λ r v.
          then_go_rule (Unit {0}) T T T
            (after_status r (record_migration r.connection type m (is_down direction))) _
            (record-Tracks m (is_down direction) r v)
            λ r v.
              then_go_rule (Unit {0}) T T T (commit_step type r) _ (commit_step-Tracks r v)
                λ r v. ground arith

  module _ (direction : Direction) (limit : ℕ) (migrations : List (Migration d))
      (none_opens : OpenNone direction migrations) where
    apply_chosen-Tracks :
        (o : Option (Migration d)) (r : Run d)
        → ((m : Migration d) → o ≡ some m → OpensNone (operation direction m))
        → Tracks p type r
        → OnRound
            (Unit {0})
            (Tracks p type)
            (Tracks p type)
            (Tracks p type)
            (apply_chosen type direction o r)
    apply_chosen-Tracks none r h v = tt
    apply_chosen-Tracks (some m) r h v =
        to_round_rule (Unit {0}) (Tracks p type) (Tracks p type) (Tracks p type) (Tracks p type)
          again (apply type direction m r) (λ r v. v) (apply-Tracks direction m r (h m refl) v)

    after_history-Tracks :
        (r : Run d) (found : Connection d × History)
        → (found.0.in_transaction ≡ true → r.connection.in_transaction ≡ true)
        → Tracks p type r
        → OnRound
            (Unit {0})
            (Tracks p type)
            (Tracks p type)
            (Tracks p type)
            (after_history type direction limit migrations r found)
    after_history-Tracks r (c, broken e) h v = ground arith
    after_history-Tracks r (c, history count) h v =
        elim (Bool-cases (is_done direction count limit)) [
          | inl done ↦ rw done (
              to_round_rule (Unit {0}) (Tracks p type) (Tracks p type) (Tracks p type)
                (Tracks p type) finished (commit_step type _) (λ r v. v)
                (commit_step-Tracks _ (ground arith)))
          | inr more ↦ rw more (
              apply_chosen-Tracks (chosen direction count migrations) _
                (λ m e. chosen-OpensNone direction migrations count m none_opens e) (ground arith))
        ]

    read_history-flag :
        (c : Connection d) → (read_history p migrations c).0.in_transaction ≡ c.in_transaction
    unfolding read_history
    read_history-flag c = ground arith

    round-Tracks :
        (r : Run d)
        → Tracks p type r
        → OnRound
            (Unit {0})
            (Tracks p type)
            (Tracks p type)
            (Tracks p type)
            (round p type direction limit migrations r)
    unfolding round
    round-Tracks r v =
        to_round_rule (Unit {0}) (Tracks p type) (Tracks p type) (Tracks p type) (Tracks p type) _
          (begin_step type r)
          (λ r v.
            after_history-Tracks r (read_history p migrations r.connection)
              (λ e. ground (arith, read_history-flag r.connection)) v)
          (begin_step-Tracks r v)

    pub loop-Tracks :
        (fuel : ℕ) (r : Run d)
        → Tracks p type r
        → Kept p type (loop p type direction limit migrations fuel r)
    unfolding loop
    loop-Tracks zero r v = tt
    loop-Tracks (suc fuel) r v =
        loop_rule (Unit {0}) (Tracks p type) (Tracks p type) (Tracks p type) (Tracks p type)
          (Tracks p type) (round p type direction limit migrations r)
          (loop p type direction limit migrations fuel) (round-Tracks r v) (loop-Tracks fuel)
          (λ r v. v) (λ r v. v)
