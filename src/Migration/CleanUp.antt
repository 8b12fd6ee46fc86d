-- ===== src/Migration/CleanUp.antt =====
-- The label `out` of `run` in migration/orm-migrator.c leaves the committed history alone, and the
-- limits of the loop lie within the list.
use orm_glib.Base.{
  take, drop, if◌then◌else◌, subst, ℕ, suc, ◌+◌, ◌≤◌, ◌<◌, Bool, true, false, Option, none, some,
  List, [], ◌∷◌, ◌≡◌, refl, ◌∙◌, arith, length, Text,
}
use orm_glib.Base.Int.{ℤ}
use orm_glib.Core.Error.{ok}
use orm_glib.Engine.Driver.{Driver, DialectType, sqlite, postgres, mysql}
use orm_glib.Engine.Connection.{Connection, execute, close}
use orm_glib.Migration.History.{Migration, end_migration}
use orm_glib.Migration.Migrator.{Migrator, Run, Direction, upward, stay, downward, unlock_sql}
use orm_glib.Migration.Run.{
  Report, is_status, versions, clean_up, roll_back, unlock, restore_timeout, conclude, restore,
  close_locker, limit_for, find_limit,
}
use orm_glib.Migration.Database.{IsHarmless, HistoryDb, neutral_unlock}
use orm_glib.Migration.Steps.{remaining}

module _ {d : Driver} where
  pub find_limit_bound :
      (target : ℤ) (i limit : ℕ) (ms : List (Migration d))
      → limit ≤ i
      → find_limit target i limit ms ≤ i + length ms
  unfolding find_limit
  find_limit_bound target i limit [] b = omega (arith, b)
  find_limit_bound target i limit (m ∷ ms) b =
      ground (
        arith,
        find_limit_bound target (suc i) (suc i) ms,
        find_limit_bound target (suc i) limit ms,
      )

  pub limit_bound :
      (direction : Direction) (target : ℤ) (ms : List (Migration d))
      → limit_for direction target ms ≤ length ms
  limit_bound upward target ms = ground (arith, find_limit_bound target 0 0 ms)
  limit_bound stay target ms = ground (arith, find_limit_bound target 0 0 ms)
  limit_bound downward target ms = ground (arith, find_limit_bound target 0 0 ms)

pub remaining_bound :
    (direction : Direction) (n limit len : ℕ)
    → n ≤ len
    → limit ≤ len
    → remaining direction n limit < suc len
remaining_bound upward n limit len a b = omega arith
remaining_bound stay n limit len a b = omega arith
remaining_bound downward n limit len a b = omega arith

module _ {d : Driver} where
  pub end_durable :
      (type : DialectType) (h : HistoryDb d type) (c : Connection d)
      → h.durable (end_migration c type false).0.db ≡ h.durable c.db
  unfolding end_migration execute
  end_durable sqlite h c = ground (arith, h.rollback_law c.db)
  end_durable postgres h c = ground (arith, h.rollback_law c.db)
  end_durable mysql h c = refl

module _ {d : Driver} {type : DialectType} (h : HistoryDb d type) where
  pub close_durable : (c : Connection d) → h.durable (close c).db ≡ h.durable c.db
  unfolding close
  close_durable c = ground (arith, h.close_law c.db)

  pub roll_back_durable :
      (r : Run d) → h.durable (roll_back type r).connection.db ≡ h.durable r.connection.db
  unfolding roll_back
  roll_back_durable r =
      let c = (end_migration r.connection type false).0 in
      ground (arith, end_durable type h r.connection, close_durable c)

  pub unlock_durable :
      (r : Run d) (fine : Bool)
      → h.durable (unlock type r fine).0.connection.db ≡ h.durable r.connection.db
  unfolding unlock execute
  unlock_durable r fine =
      let db = r.connection.db in
      ground (
        arith,
        h.neutral_law db unlock_sql neutral_unlock,
        close_durable (execute r.connection unlock_sql).0,
      )

  pub restore_durable :
      (r : Run d) (fine : Bool) (sql : Option Text)
      → IsHarmless sql
      → h.durable (restore r fine sql).0.connection.db ≡ h.durable r.connection.db
  unfolding execute
  restore_durable r fine none v = refl
  restore_durable r fine (some sql) v = ground (arith, h.neutral_law r.connection.db sql v)

  pub roll_back_keeps : (r : Run d) → (roll_back type r).restore_timeout ≡ r.restore_timeout
  unfolding roll_back
  roll_back_keeps r = ground arith

  pub unlock_keeps :
      (r : Run d) (fine : Bool) → (unlock type r fine).0.restore_timeout ≡ r.restore_timeout
  unfolding unlock
  unlock_keeps r fine = ground arith

-- If the report is a success, status tells the versions of the first `count` migrations as applied
-- and the others as pending, and up and down tell none.
abbrev pub Lists : {d : Driver} → Migrator d → Direction → ℕ → Report d → Type 0
Lists self direction count report =
    report.status ≡ ok
    → (report.applied ≡ (if is_status direction then versions (take count self.migrations) else []))
      × (report.pending
          ≡ (if is_status direction then versions (drop count self.migrations) else []))

module _ {d : Driver} (self : Migrator d) (direction : Direction) where
  pub conclude_db :
      (r : Run d × Bool) → (conclude self direction r).migrator.connection.db ≡ r.0.connection.db
  unfolding conclude
  conclude_db (r, true) = refl
  conclude_db (r, false) = refl

  pub clean_up_durable :
      (h : HistoryDb d self.dialect) (r : Run d) (fine : Bool)
      → IsHarmless r.restore_timeout
      → h.durable (clean_up self direction r fine).migrator.connection.db
        ≡ h.durable r.connection.db
  unfolding clean_up restore_timeout
  clean_up_durable h r fine v =
      let r₁ = roll_back self.dialect r in
      let (r₂, fine₂) = unlock self.dialect r₁ fine in
      let r₃ = record r₂ { locker = close_locker r₂.locker } in
      rw conclude_db (
        restore_durable h r₃ fine₂ r₃.restore_timeout
          (rw (unlock_keeps h r₁ fine, roll_back_keeps h r) v)
        ∙ unlock_durable h r₁ fine
        ∙ roll_back_durable h r)

  -- A run that failed reports a failure.
  pub clean_up_failed : (r : Run d) → (clean_up self direction r false).status ≡ ok → ⊥
  unfolding clean_up restore_timeout unlock conclude
  clean_up_failed r e = ground arith

  roll_back_count : (r : Run d) → (roll_back self.dialect r).count ≡ r.count
  unfolding roll_back
  roll_back_count r = ground arith

  unlock_count : (r : Run d) (fine : Bool) → (unlock self.dialect r fine).0.count ≡ r.count
  unfolding unlock
  unlock_count r fine = ground arith

  restore_count :
      (r : Run d) (fine : Bool) (sql : Option Text) → (restore r fine sql).0.count ≡ r.count
  unfolding execute
  restore_count r fine none = refl
  restore_count r fine (some sql) = ground arith

  conclude-Lists : (r : Run d × Bool) → Lists self direction r.0.count (conclude self direction r)
  unfolding conclude
  conclude-Lists (r, true) e = (refl, refl)
  conclude-Lists (r, false) e = cc

  pub clean_up-Lists :
      (r : Run d) (fine : Bool) → Lists self direction r.count (clean_up self direction r fine)
  unfolding clean_up restore_timeout
  clean_up-Lists r fine =
      let r₁ = roll_back self.dialect r in
      let (r₂, fine₂) = unlock self.dialect r₁ fine in
      let r₃ = record r₂ { locker = close_locker r₂.locker } in
      subst (λ n. Lists self direction n (clean_up self direction r fine))
        (restore_count r₃ fine₂ r₃.restore_timeout ∙ unlock_count r₁ fine ∙ roll_back_count r)
        (conclude-Lists (restore r₃ fine₂ r₃.restore_timeout))
