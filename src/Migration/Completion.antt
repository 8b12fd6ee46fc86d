-- ===== src/Migration/Completion.antt =====
-- The loop of the migrator from the first n migrations to the goal, one committed step at a time,
-- with a whole number of steps committed wherever it fails.
use orm_glib.Base.{
  ℕ, zero, suc, ◌≤◌, ◌<◌, true, false, some, List, ◌≡◌, sym, ◌∙◌, subst, arith, ◌⊎◌, inl, inr,
  Option-cases, Bool-cases, get_elem?, length, get_elem?-none,
}
use orm_glib.Core.Platform.{Platform, PlatformLaws}
use orm_glib.Engine.Driver.{Driver, DialectType}
use orm_glib.Engine.Connection.{Connection, execute}
use orm_glib.Migration.History.{
  Migration, History, history, broken, read_history, are_ordered, end_migration,
}
use orm_glib.Migration.Migrator.{
  Run, Direction, upward, stay, downward, again, finished, holds_transaction,
}
use orm_glib.Migration.Loop.{
  loop, round, apply, begin_step, commit_step, operation, chosen, is_done, apply_chosen,
  after_history,
}
use orm_glib.Migration.Outcomes.{OnOutcome, OnRound, to_round_rule, loop_rule, weaken_rule}
use orm_glib.Migration.Entries.{recorded}
use orm_glib.Migration.Database.{HistoryDb, Respects}
use orm_glib.Migration.Progress.{At, Settled, Within, begin_step_lem}
use orm_glib.Migration.Steps.{
  next, goal, remaining, next_lem, done_lem, goal_between, suc-sub-one, apply_up, apply_down, Reads,
  read_lem,
}

module _ {d : Driver} {type : DialectType} (h : HistoryDb d type) (ms : List (Migration d)) where
  -- The operations of the migrations keep off the bookkeeping table.
  abbrev pub AllRespect : Direction → Type 0
  AllRespect direction =
      (i : ℕ) (m : Migration d) → get_elem? ms i ≡ some m → Respects h (operation direction m)

  pub record Next (direction : Direction) (limit n : ℕ) (r : Run d) : Type 0 where
    pub at : At h (recorded (next direction n) ms) r
    pub more : is_done direction n limit ≡ false

  pub record Last (direction : Direction) (limit n : ℕ) (r : Run d) : Type 0 where
    pub at : At h (recorded n ms) r
    pub done : is_done direction n limit ≡ true
    pub counted : r.count ≡ n

  -- A whole number of steps was committed, on the way from n to the goal.
  pub record Partway (direction : Direction) (limit n : ℕ) (r : Run d) : Type 0 where
    pub reached : ℕ
    pub settled : h.durable r.connection.db ≡ recorded reached ms
    pub between :
        ((n ≤ reached) × (reached ≤ goal direction n limit))
        ⊎ ((goal direction n limit ≤ reached) × (reached ≤ n))

  pub record Complete (direction : Direction) (limit n : ℕ) (r : Run d) : Type 0 where
    pub at : At h (recorded (goal direction n limit) ms) r
    pub counted : r.count ≡ goal direction n limit

module _ {d : Driver} {type : DialectType} (h : HistoryDb d type) (p : Platform)
    (l : PlatformLaws p) (t : holds_transaction type ≡ true) (ms : List (Migration d))
    (ordered : are_ordered ms ≡ true) where
  commit_done_lem :
      (n : ℕ) (r : Run d)
      → Within h (recorded n ms) (recorded n ms) r
      → OnOutcome ⊥
          (λ r'. At h (recorded n ms) r' × (r'.count ≡ r.count))
          (Settled h (recorded n ms))
          (commit_step type r)
  unfolding end_migration execute
  commit_done_lem n r v = ground (arith, h.commit_law r.connection.db)

  apply-Next :
      (direction : Direction) (limit n : ℕ) (r : Run d)
      → AllRespect h ms direction
      → n ≤ length ms
      → limit ≤ length ms
      → is_done direction n limit ≡ false
      → Within h (recorded n ms) (recorded n ms) r
      → OnRound ⊥
          (Next h ms direction limit n)
          (Last h ms direction limit n)
          (Settled h (recorded n ms))
          (apply_chosen type direction (chosen direction n ms) r)
  unfolding is_done
  apply-Next upward limit n r k b c e v = elim (Option-cases (get_elem? ms n)) [
    | inl missing ↦ absurd (ground (arith, get_elem?-none ms n missing))
    | inr (m, found) ↦ rw found (
        to_round_rule ⊥ (At h (recorded (suc n) ms)) (Next h ms upward limit n)
          (Last h ms upward limit n) (Settled h (recorded n ms)) again (apply type upward m r)
          (λ r v. record { at = v; more = e })
          (apply_up h p l t ms ordered n m r found (k n m found) v))
  ]
  apply-Next stay limit n r k b c e v = cc
  apply-Next downward limit zero r k b c e v = absurd (ground arith)
  apply-Next downward limit (suc n) r k b c e v = elim (Option-cases (get_elem? ms n)) [
    | inl missing ↦ absurd (ground (arith, get_elem?-none ms n missing))
    | inr (m, found) ↦
        rw (suc-sub-one n, found)
          (to_round_rule ⊥ (At h (recorded n ms)) (Next h ms downward limit (suc n))
            (Last h ms downward limit (suc n)) (Settled h (recorded (suc n) ms)) again
            (apply type downward m r) (λ r v. record { at = rw (suc-sub-one n) v; more = e })
            (apply_down h p l t ms ordered n m r found (k n m found) v))
  ]

  after_history_lem :
      (direction : Direction) (limit n : ℕ) (r : Run d) (found : Connection d × History)
      → AllRespect h ms direction
      → n ≤ length ms
      → limit ≤ length ms
      → Reads h p l t ms ordered n found
      → OnRound ⊥
          (Next h ms direction limit n)
          (Last h ms direction limit n)
          (Settled h (recorded n ms))
          (after_history type direction limit ms r found)
  after_history_lem direction limit n r (c, broken e) k b b' v = record { durable = v }
  after_history_lem direction limit n r (c, history x) k b b' (count, dur, vis, tx) =
      subst
        (λ x.
          OnRound ⊥ (Next h ms direction limit n) (Last h ms direction limit n)
            (Settled h (recorded n ms)) (after_history type direction limit ms r (c, history x)))
        (sym count)
        (elim (Bool-cases (is_done direction n limit)) [
          | inl done ↦ rw done (
              to_round_rule ⊥ (λ r'. At h (recorded n ms) r' × (r'.count ≡ n))
                (Next h ms direction limit n) (Last h ms direction limit n)
                (Settled h (recorded n ms)) finished _
                (λ r v. record { at = v.0; done = done; counted = v.1 })
                (commit_done_lem n (record r { connection = c; count = n })
                  (record { durable = dur; visible = vis; open_tx = tx })))
          | inr more ↦ rw more (
              apply-Next direction limit n (record r { connection = c; count = n }) k b b' more
                (record { durable = dur; visible = vis; open_tx = tx }))
        ])

  round_lem :
      (direction : Direction) (limit n : ℕ) (r : Run d)
      → AllRespect h ms direction
      → n ≤ length ms
      → limit ≤ length ms
      → At h (recorded n ms) r
      → OnRound ⊥
          (Next h ms direction limit n)
          (Last h ms direction limit n)
          (Settled h (recorded n ms))
          (round p type direction limit ms r)
  unfolding round
  round_lem direction limit n r k b b' v =
      to_round_rule ⊥ (Within h (recorded n ms) (recorded n ms)) (Next h ms direction limit n)
        (Last h ms direction limit n) (Settled h (recorded n ms)) _ (begin_step type r)
        (λ r v.
          after_history_lem direction limit n r (read_history p ms r.connection) k b b'
            (read_lem h p l t ms ordered n r b v))
        (begin_step_lem h (recorded n ms) r t v)

  later-Complete :
      (direction : Direction) (limit n : ℕ) (r : Run d)
      → goal direction (next direction n) limit ≡ goal direction n limit
      → Complete h ms direction limit (next direction n) r
      → Complete h ms direction limit n r
  later-Complete direction limit n r e v = record {
    at = subst (λ g. At h (recorded g ms) r) e v.at;
    counted = v.counted ∙ e;
  }

  later-Partway :
      (direction : Direction) (limit n : ℕ) (r : Run d)
      → is_done direction n limit ≡ false
      → n ≤ length ms
      → limit ≤ length ms
      → Partway h ms direction limit (next direction n) r
      → Partway h ms direction limit n r
  later-Partway direction limit n r e b b' v = record {
    reached = v.reached;
    settled = v.settled;
    between = ground (arith, v.between, next_lem direction limit n (length ms) e b b');
  }

  pub start-Partway :
      (direction : Direction) (limit n : ℕ) (r : Run d)
      → Settled h (recorded n ms) r
      → Partway h ms direction limit n r
  start-Partway direction limit n r v = record {
    reached = n;
    settled = v.durable;
    between = ground (arith, goal_between direction limit n);
  }

  pub loop_lem :
      (direction : Direction) (limit fuel n : ℕ) (r : Run d)
      → AllRespect h ms direction
      → n ≤ length ms
      → limit ≤ length ms
      → remaining direction n limit < fuel
      → At h (recorded n ms) r
      → OnOutcome ⊥
          (Complete h ms direction limit n)
          (Partway h ms direction limit n)
          (loop p type direction limit ms fuel r)
  unfolding loop
  loop_lem direction limit zero n r k b b' f v = absurd (omega arith)
  loop_lem direction limit (suc fuel) n r k b b' f v =
      loop_rule ⊥ (Next h ms direction limit n) (Last h ms direction limit n)
        (Settled h (recorded n ms)) (Complete h ms direction limit n)
        (Partway h ms direction limit n) (round p type direction limit ms r)
        (loop p type direction limit ms fuel) (round_lem direction limit n r k b b' v)
        (λ r' v'.
          let (same_goal, fewer, bound, _) = next_lem direction limit n (length ms) v'.more b b' in
          weaken_rule ⊥ _ _ _ _ (loop p type direction limit ms fuel r')
            (λ r v. later-Complete direction limit n r same_goal v)
            (λ r v. later-Partway direction limit n r v'.more b b' v)
            (loop_lem direction limit fuel (next direction n) r' k bound b' (omega arith) v'.at))
        (λ r' v'. record {
          at = rw (done_lem direction limit n v'.done) v'.at;
          counted = rw (done_lem direction limit n v'.done) v'.counted;
        })
        (start-Partway direction limit n)
