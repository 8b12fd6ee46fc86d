-- ===== src/Engine/Row.antt =====
-- engine/orm-row.c: a fetched row, as the list of its columns.
use orm_glib.Base.{
  ℕ, Option, none, some, List, [], ◌∷◌, get_elem?, Text, if◌then◌else◌, text_eq, Bool,
}
use orm_glib.Base.Int.{ℤ, pos}
use orm_glib.Core.Value.{Value, is_null, get_integer}

-- OrmRow: each column's name with its value.
abbrev pub Row : Type 0
Row = List (Text × Value)

abbrev column_value : Option (Text × Value) → Option Value
column_value none = none
column_value (some (_, v)) = some v

-- orm_row_get_value: NULL out of range.
unfoldable pub row_get_value : Row → ℕ → Option Value
row_get_value row index = column_value (get_elem? row index)

abbrev integer_or_zero : Option Value → ℤ
integer_or_zero none = pos 0
integer_or_zero (some v) = if is_null v then pos 0 else get_integer v

-- orm_row_get_integer.
unfoldable pub row_get_integer : Row → ℕ → ℤ
unfolding row_get_value is_null get_integer
row_get_integer row index = integer_or_zero (row_get_value row index)

abbrev last_of : Option Value → Bool → Value → Option Value
last_of (some later) matches v = some later
last_of none matches v = if matches then some v else none

-- orm_row_get_value_by_name: of the columns with one name, the index of the last one is kept.
unfoldable pub row_get_value_by_name : Row → Text → Option Value
unfolding text_eq
row_get_value_by_name [] name = none
row_get_value_by_name ((column, v) ∷ rest) name =
    last_of (row_get_value_by_name rest name) (text_eq column name) v
