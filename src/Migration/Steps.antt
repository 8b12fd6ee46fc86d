-- ===== src/Migration/Steps.antt =====
-- One step of the migrator, up or down, on a history that is the first n migrations, and the reading
-- of such a history.
use orm_glib.Base.{
  ℕ, suc, ◌-◌, ◌≤◌, ◌<◌, true, false, Option, none, some, List, [], map, ◌≡◌, refl, arith, ◌⊎◌, inl,
  inr, Bool-cases, get_elem?, length, if◌then◌else◌, leb,
}
use orm_glib.Core.Platform.{Platform, PlatformLaws}
use orm_glib.Core.Error.{Error}
use orm_glib.Engine.Row.{Row}
use orm_glib.Engine.Driver.{Driver, DialectType, QueryResult, rows, refused}
use orm_glib.Engine.Connection.{Connection}
use orm_glib.Migration.History.{
  Migration, History, history, broken, read_history, match_rows, are_ordered, record_migration,
  select_history,
}
use orm_glib.Migration.Migrator.{
  Run, Direction, upward, stay, downward, holds_transaction, after_status,
}
use orm_glib.Migration.Loop.{apply, commit_step, operation, is_done, run_operation}
use orm_glib.Migration.Outcomes.{OnOutcome, then_go_rule}
use orm_glib.Migration.Entries.{
  encode, recorded, length-recorded, insert_entry, remove_version, entry, insert-recorded,
  remove-recorded,
}
use orm_glib.Migration.Checks.{match_sound, match_rows-ending}
use orm_glib.Migration.Database.{HistoryDb, Respects}
use orm_glib.Migration.Progress.{
  At, Settled, Within, commit_lem, operation_lem, insert_lem, delete_lem,
}

History-cases : (r : History) → ((k : ℕ) × (r ≡ history k)) ⊎ ((e : Option Error) × (r ≡ broken e))
History-cases (history k) = inl (k, refl)
History-cases (broken e) = inr (e, refl)

QueryResult-cases :
    (r : QueryResult)
    → ((found : List Row) × (ending : Option Error) × (r ≡ rows found ending))
      ⊎ ((e : Option Error) × (r ≡ refused e))
QueryResult-cases (rows found ending) = inl (found, ending, refl)
QueryResult-cases (refused e) = inr (e, refl)

pub suc-sub-one : (n : ℕ) → suc n - 1 ≡ n
suc-sub-one n = omega arith

-- Where the history is after one more step, and in the end.
abbrev pub next : Direction → ℕ → ℕ
next downward n = n - 1
next _ n = suc n

abbrev pub goal : Direction → ℕ → ℕ → ℕ
goal upward n limit = if leb limit n then n else limit
goal stay n limit = n
goal downward n limit = if leb n limit then n else limit

-- The rounds that are left.
abbrev pub remaining : Direction → ℕ → ℕ → ℕ
remaining upward n limit = limit - n
remaining stay n limit = 0
remaining downward n limit = n - limit

-- A step that is due brings the history nearer to the same goal, within the migrations.
pub next_lem :
    (direction : Direction) (limit n len : ℕ)
    → is_done direction n limit ≡ false
    → n ≤ len
    → limit ≤ len
    → (goal direction (next direction n) limit ≡ goal direction n limit)
      × (remaining direction (next direction n) limit < remaining direction n limit)
      × (next direction n ≤ len)
      × (((n ≤ next direction n) × (next direction n ≤ goal direction n limit))
          ⊎ ((goal direction n limit ≤ next direction n) × (next direction n ≤ n)))
unfolding is_done
next_lem upward limit n len e b b' = ground arith
next_lem stay limit n len e b b' = cc
next_lem downward limit n len e b b' = ground arith

pub done_lem :
    (direction : Direction) (limit n : ℕ)
    → is_done direction n limit ≡ true
    → goal direction n limit ≡ n
unfolding is_done
done_lem upward limit n e = ground arith
done_lem stay limit n e = refl
done_lem downward limit n e = ground arith

pub goal_between :
    (direction : Direction) (limit n : ℕ)
    → (n ≤ goal direction n limit) ⊎ (goal direction n limit ≤ n)
goal_between upward limit n = ground arith
goal_between stay limit n = inl (omega arith)
goal_between downward limit n = ground arith

module _ {d : Driver} {type : DialectType} (h : HistoryDb d type) (p : Platform)
    (l : PlatformLaws p) (t : holds_transaction type ≡ true) (ms : List (Migration d))
    (ordered : are_ordered ms ≡ true) where
  pub apply_up :
      (n : ℕ) (m : Migration d) (r : Run d)
      → get_elem? ms n ≡ some m
      → Respects h (operation upward m)
      → Within h (recorded n ms) (recorded n ms) r
      → OnOutcome ⊥ (At h (recorded (suc n) ms)) (Settled h (recorded n ms)) (apply type upward m r)
  unfolding apply
  apply_up n m r e k v =
      let es = recorded n ms in
      let Q = Settled h es in
      then_go_rule ⊥ (Within h es es) (At h (recorded (suc n) ms)) Q
        (run_operation (operation upward m) (record r { migration = some m })) _
        (operation_lem h es es (operation upward m) (record r { migration = some m }) k
          (ground arith))
        λ r v.
          then_go_rule ⊥ (Within h es (insert_entry (entry m) es)) (At h (recorded (suc n) ms)) Q
            (after_status r (record_migration r.connection type m false)) _
            (insert_lem h es es m r v)
            λ r v.
              then_go_rule ⊥ (At h (insert_entry (entry m) es)) (At h (recorded (suc n) ms)) Q
                (commit_step type r) _ (commit_lem h es (insert_entry (entry m) es) r t v)
                λ r v. ground (arith, insert-recorded ms n m ordered e)

  pub apply_down :
      (n : ℕ) (m : Migration d) (r : Run d)
      → get_elem? ms n ≡ some m
      → Respects h (operation downward m)
      → Within h (recorded (suc n) ms) (recorded (suc n) ms) r
      → OnOutcome ⊥
          (At h (recorded n ms))
          (Settled h (recorded (suc n) ms))
          (apply type downward m r)
  unfolding apply
  apply_down n m r e k v =
      let es = recorded (suc n) ms in
      let Q = Settled h es in
      then_go_rule ⊥ (Within h es es) (At h (recorded n ms)) Q
        (run_operation (operation downward m) (record r { migration = some m })) _
        (operation_lem h es es (operation downward m) (record r { migration = some m }) k
          (ground arith))
        λ r v.
          then_go_rule ⊥ (Within h es (remove_version m.version es)) (At h (recorded n ms)) Q
            (after_status r (record_migration r.connection type m true)) _
            (delete_lem h es es m r v)
            λ r v.
              then_go_rule ⊥ (At h (remove_version m.version es)) (At h (recorded n ms)) Q
                (commit_step type r) _ (commit_lem h es (remove_version m.version es) r t v)
                λ r v. ground (arith, remove-recorded ms n m ordered e)

  -- Reading the history in the transaction gives the number of records, or fails.
  abbrev pub Reads : ℕ → Connection d × History → Type 0
  Reads n (c, history k) =
      (k ≡ n)
      × (h.durable c.db ≡ recorded n ms)
      × (h.visible c.db ≡ recorded n ms)
      × (h.open_tx c.db ≡ true)
  Reads n (c, broken _) = h.durable c.db ≡ recorded n ms

  count_lem :
      (n k : ℕ) (found : List Row) (ending : Option Error)
      → n ≤ length ms
      → (ending ≡ none → found ≡ map encode (recorded n ms))
      → match_rows p ms 0 found ending ≡ history k
      → k ≡ n
  count_lem n k found none b f e =
      ground (
        arith,
        f refl,
        match_sound p l ms 0 (recorded n ms) k (omega arith),
        length-recorded n ms b,
      )
  count_lem n k found (some err) b f e = absurd (match_rows-ending p l ms 0 found err k e)

  read_rows_lem :
      (n : ℕ) (c : Connection d) (found : List Row) (ending : Option Error)
      → n ≤ length ms
      → (ending ≡ none → found ≡ map encode (recorded n ms))
      → h.durable c.db ≡ recorded n ms
      → h.visible c.db ≡ recorded n ms
      → h.open_tx c.db ≡ true
      → Reads n (c, match_rows p ms 0 found ending)
  read_rows_lem n c found ending b f x y z = elim (History-cases (match_rows p ms 0 found ending)) [
    | inl (k, e) ↦ rw e (count_lem n k found ending b f e, x, y, z)
    | inr (err, e) ↦ rw e x
  ]

  pub read_lem :
      (n : ℕ) (r : Run d)
      → n ≤ length ms
      → Within h (recorded n ms) (recorded n ms) r
      → Reads n (read_history p ms r.connection)
  unfolding read_history
  read_lem n r b v =
      let db = r.connection.db in
      elim (QueryResult-cases (d.query db select_history []).1) [
        | inl (found, ending, e) ↦ elim (Bool-cases (r.connection.is_open)) [
          | inl o ↦ elim (Bool-cases r.connection.has_driver) [
            | inl w ↦
                rw (o, w, e)
                  (read_rows_lem n (record r.connection { db = (d.query db select_history []).0 })
                    found ending b (λ x. ground (arith, h.select_law db found))
                    (ground (arith, h.select_law db found)) (ground (arith, h.select_law db found))
                    (ground (arith, h.select_law db found)))
            | inr w ↦ rw (o, w) v.durable
          ]
          | inr o ↦ rw o v.durable
        ]
        | inr (err, e) ↦ ground (arith, e, h.select_law db [])
      ]
