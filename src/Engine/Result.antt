-- ===== src/Engine/Result.antt =====
-- engine/orm-result.c: the rows of a query, fetched one by one by the caller; each fetch runs on the
-- connection's worker and is waited for, so it is one step.
pub mod Rows
mod Samples
use orm_glib.Base.{
  ℕ, zero, suc, Bool, true, false, Option, none, some, List, [], ◌∷◌, length, if◌then◌else◌,
}
use orm_glib.Core.Error.{Error}
use orm_glib.Core.Value.{Value}
use orm_glib.Engine.Row.{Row, row_get_value}
use orm_glib.Engine.RowStream.{DriverResult, fetch_row}

-- OrmResult; `driver_result` is NULL once the result was closed.
pub record Result : Type 0 where
  pub driver_result : Option DriverResult
  pub current_row : Option Row
  pub error : Option Error
  pub is_closed : Bool
  pub exhausted : Bool

unfoldable pub result_new : DriverResult → Result
result_new r = record {
  driver_result = some r;
  current_row = none;
  error = none;
  is_closed = false;
  exhausted = false;
}

-- What a call of the driver leaves at the location of an error.
abbrev left_at : Option Error → Option Error → Option Error
left_at old none = old
left_at old (some e) = some e

abbrev with_row : Result → DriverResult → Option Row → Option Error → Result × Bool
with_row s r none e =
    (record s { driver_result = some r; error = left_at s.error e; exhausted = true }, false)
with_row s r (some row) e =
    (record s { driver_result = some r; current_row = some row; error = left_at s.error e }, true)

-- orm_result_next.
unfoldable pub next : Result → Result × Bool
unfolding fetch_row
next s =
    let cleared = record s { current_row = none } in
    if s.is_closed
    then (s, false)
    else if s.exhausted
    then (cleared, false)
    else elim s.driver_result [
      | none ↦ (cleared, false)
      | some r ↦ (let (row, error, r') = fetch_row r in with_row cleared r' row error)
    ]

abbrev cons_row : Option Row → List Row → List Row
cons_row none rows = rows
cons_row (some row) rows = row ∷ rows

-- The loop of orm_result_get_all.
unfoldable pub get_rows : ℕ → Result → Result × List Row
unfolding next
get_rows zero s = (s, [])
get_rows (suc fuel) s =
    let (t, found) = next s in
    let (end, rows) = get_rows fuel t in
    if found then (end, cons_row t.current_row rows) else (t, [])

abbrev pub rows_left : Option DriverResult → ℕ
rows_left none = 0
rows_left (some r) = length r.rows

-- orm_result_get_all: one turn for each row and one more.
unfoldable pub get_all_rows : Result → Result × List Row
unfolding get_rows
get_all_rows s = get_rows (suc (rows_left s.driver_result)) s

unfoldable pub get_first : Result → Result × Option Row
unfolding next
get_first s = let (t, found) = next s in (t, if found then t.current_row else none)

abbrev first_value : Option Row → Option Value
unfolding row_get_value
first_value none = none
first_value (some row) = row_get_value row 0

unfoldable pub get_scalar : Result → Result × Option Value
unfolding get_first row_get_value
get_scalar s = let (t, row) = get_first s in (t, first_value row)

-- orm_result_close.
unfoldable pub result_close : Result → Result
result_close s = record s { driver_result = none; is_closed = true; exhausted = true }
