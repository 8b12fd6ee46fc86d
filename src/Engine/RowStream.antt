-- ===== src/Engine/RowStream.antt =====
-- engine/orm-row-stream.c: rows fetched a batch at a time by jobs of the connection's worker. The
-- cursor is the driver's: the rows that it will give, and the error that ends them, if one does.
pub mod Batches
mod Samples
use orm_glib.Base.{
  ℕ, zero, suc, Bool, true, false, not, ◌||◌, Option, none, some, List, [], ◌∷◌, get_elem?, map,
  if◌then◌else◌, ◌==◌, Text,
}
use orm_glib.Core.Error.{Error, invalid_operation}
use orm_glib.Engine.Row.{Row}

-- OrmDriverResult: its columns, by name and type name, and its rows.
pub record DriverResult : Type 0 where
  pub columns : List (Text × Option Text)
  pub rows : List Row
  pub ends_with : Option Error

-- OrmRowStream; `driver_result` is NULL once the cursor was closed.
pub record RowStream : Type 0 where
  pub driver_result : Option DriverResult
  pub columns : List (Text × Option Text)
  pub at_end : Bool
  pub is_closed : Bool

unfoldable pub row_stream_new : DriverResult → RowStream
row_stream_new r = record {
  driver_result = some r;
  columns = r.columns;
  at_end = false;
  is_closed = false;
}

-- orm_row_stream_close_cursor.
unfoldable pub close_cursor : RowStream → RowStream
close_cursor s = record s { driver_result = none; at_end = true; is_closed = true }

abbrev name_of : Option (Text × Option Text) → Option Text
name_of none = none
name_of (some (name, _)) = some name

-- orm_row_stream_get_column_name, for an index that is not negative: NULL out of range.
unfoldable pub get_column_name : RowStream → ℕ → Option Text
get_column_name s index = name_of (get_elem? s.columns index)

-- orm_driver_result_fetch_row: the next row, or NULL with the error, if one ended the rows.
abbrev next_row : List Row → DriverResult → Option Row × Option Error × DriverResult
next_row [] r = (none, r.ends_with, r)
next_row (x ∷ xs) r = (some x, none, record r { rows = xs })

unfoldable pub fetch_row : DriverResult → Option Row × Option Error × DriverResult
fetch_row r = next_row r.rows r

-- The loop of orm_row_stream_fetch_job: the rows, the error, and the stream.
unfoldable pub fetch_loop : ℕ → RowStream → List Row × Option Error × RowStream
unfolding fetch_row
fetch_loop zero s = ([], none, s)
fetch_loop (suc n) s = elim s.driver_result [
  | none ↦ ([], none, s)
  | some r ↦
      (let (row, error, r') = fetch_row r in
        let more = fetch_loop n (record s { driver_result = some r' }) in
        if s.at_end then ([], none, s) else elim row [
          | none ↦ ([], error, record s { driver_result = some r'; at_end = true })
          | some x ↦ (x ∷ more.0, more.1, more.2)
        ])
]

-- What the task of a fetch is returned with. A cancellation is answered by the operation.
pub data Fetched : Type 0 where
  batch : List Row → Fetched
  failed : Error → Fetched
  cancelled : Fetched
  -- No task was made, so the caller is never answered.
  unanswered : Fetched

abbrev answer : List Row → Option Error → Fetched
answer rows none = batch rows
answer rows (some e) = failed e

-- A fetch as it goes: its size, and what task_may_run and task_may_return answer.
pub record Fetch : Type 0 where
  pub n_rows : ℕ
  pub may_run : Bool
  pub may_return : Bool

unfoldable pub fetch_job : Fetch → RowStream → Fetched × RowStream
unfolding fetch_loop
fetch_job f s =
    if f.may_run
    then (let (rows, error, t) = fetch_loop f.n_rows s in
        (if f.may_return then answer rows error else cancelled, t))
    else (cancelled, s)

-- orm_row_stream_fetch_async, and the job when its turn comes. It makes no task for 0 rows.
unfoldable pub fetch : Fetch → RowStream → Fetched × RowStream
unfolding fetch_job
fetch f s =
    if f.n_rows == 0
    then (unanswered, s)
    else if s.is_closed
    then (failed invalid_operation, s)
    else fetch_job f s

-- One fetch after the other.
pub fetch_all : List Fetch → RowStream → List Fetched
fetch_all [] s = []
fetch_all (f ∷ fs) s = let (x, t) = fetch f s in x ∷ fetch_all fs t
