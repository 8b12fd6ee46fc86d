-- ===== src/Engine/RowStream/Samples.antt =====
-- A stream of five rows that an error ends.
use orm_glib.Base.{ℕ, ◌+◌, ◌≤◌, ◌≡◌, refl, true, false, none, some, [], ◌∷◌, length, codes}
use orm_glib.Base.Int.{pos}
use orm_glib.Core.Error.{execute, invalid_operation}
use orm_glib.Core.Value.{integer}
use orm_glib.Engine.Row.{Row}
use orm_glib.Engine.RowStream.{
  DriverResult, row_stream_new, batch, failed, cancelled, unanswered, Fetch, fetch, fetch_all,
  get_column_name, close_cursor, RowStream,
}
use orm_glib.Engine.RowStream.Batches.{expected, fetch_all-expected, given, rows_left, fetch_bounds}

abbrev row : ℕ → Row
row n = (codes "id", integer (pos n)) ∷ []

abbrev broken : DriverResult
broken = record {
  columns = (codes "id", some (codes "INTEGER")) ∷ [];
  rows = row 1 ∷ row 2 ∷ row 3 ∷ row 4 ∷ row 5 ∷ [];
  ends_with = some execute;
}

abbrev kept : ℕ → Fetch
kept n = record { n_rows = n; may_run = true; may_return = true }

abbrev dropped : ℕ → Fetch
dropped n = record { n_rows = n; may_run = true; may_return = false }

fetch_all_answers :
    fetch_all (kept 2 ∷ kept 0 ∷ dropped 2 ∷ kept 4 ∷ kept 4 ∷ []) (row_stream_new broken)
    ≡ batch (row 1 ∷ row 2 ∷ []) ∷ unanswered ∷ cancelled ∷ failed execute ∷ batch [] ∷ []
unfolding fetch_all fetch row_stream_new
fetch_all_answers = refl

fetch_all-expected_example :
    fetch_all (kept 2 ∷ kept 0 ∷ dropped 2 ∷ kept 4 ∷ kept 4 ∷ []) (row_stream_new broken)
    ≡ expected (kept 2 ∷ kept 0 ∷ dropped 2 ∷ kept 4 ∷ kept 4 ∷ []) broken.rows broken.ends_with
fetch_all-expected_example =
    fetch_all-expected (kept 2 ∷ kept 0 ∷ dropped 2 ∷ kept 4 ∷ kept 4 ∷ []) broken

fetch_bounds_example :
    (length (given (fetch (kept 2) (row_stream_new broken)).0) ≤ 2)
    × (length (given (fetch (kept 2) (row_stream_new broken)).0)
          + rows_left (fetch (kept 2) (row_stream_new broken)).1.driver_result
        ≤ rows_left (row_stream_new broken).driver_result)
fetch_bounds_example = fetch_bounds (kept 2) (row_stream_new broken)

-- No name out of range, and no rows once the cursor is closed.
column_names :
    (get_column_name (row_stream_new broken) 0 ≡ some (codes "id"))
    × (get_column_name (row_stream_new broken) 1 ≡ none)
unfolding get_column_name row_stream_new
column_names = (refl, refl)

closed_fetch : (s : RowStream) → (fetch (kept 2) (close_cursor s)).0 ≡ failed invalid_operation
unfolding fetch close_cursor
closed_fetch s = refl
