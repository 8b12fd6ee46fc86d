-- ===== src/Engine/Result/Samples.antt =====
-- A result of two rows that breaks behind them.
use orm_glib.Base.{◌≡◌, refl, false, none, some, [], ◌∷◌, codes, arith}
use orm_glib.Base.Int.{pos}
use orm_glib.Core.Error.{query_failed}
use orm_glib.Core.Value.{integer}
use orm_glib.Engine.Row.{Row}
use orm_glib.Engine.RowStream.{DriverResult}
use orm_glib.Engine.Result.{
  result_new, next, get_rows, get_all_rows, get_first, get_scalar, result_close,
}
use orm_glib.Engine.Result.Rows.{first_row, get_all_rows_complete}

abbrev one : Row
one = (codes "id", integer (pos 1)) ∷ []

abbrev two : Row
two = (codes "id", integer (pos 2)) ∷ []

abbrev broken_off : DriverResult
broken_off = record {
  columns = (codes "id", none) ∷ [];
  rows = one ∷ two ∷ [];
  ends_with = some query_failed;
}

scalar : (get_scalar (result_new broken_off)).1 ≡ some (integer (pos 1))
unfolding get_scalar result_new
scalar = refl

get_all_rows_complete_example :
    let (s, rows) = get_all_rows (result_new broken_off) in
    (get_rows 7 (result_new broken_off) ≡ (s, rows))
    × (rows ≡ one ∷ two ∷ [])
    × (s.error ≡ some query_failed)
    × (next s ≡ (s, false))
    × (next (result_close s) ≡ (result_close s, false))
    × ((get_first (result_new broken_off)).1 ≡ first_row (one ∷ two ∷ []))
get_all_rows_complete_example = get_all_rows_complete broken_off 7 (omega arith)
