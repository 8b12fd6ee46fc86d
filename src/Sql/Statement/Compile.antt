-- ===== src/Sql/Statement/Compile.antt =====
-- sql/orm-select.c, orm-insert.c, orm-update.c and orm-delete.c: the text of each statement with its
-- parameters, clause by clause.
use orm_glib.Base.{
  ℕ, Bool, true, false, List, [], ◌∷◌, ◌++◌, Text, codes, if◌then◌else◌, Option, none, some,
}
use orm_glib.Base.Int.{ℤ}
use orm_glib.Engine.Driver.{DialectType}
use orm_glib.Dialect.{sql_quote_identifier}
use orm_glib.Sql.Binary.{Expression}
use orm_glib.Sql.Statement.{
  Piece, sql, concat, separated, compile_piece, JoinType, inner, left_join, right_join, full, cross,
  OrderDirection, ascending, descending, JoinInfo, OrderInfo, Select, Insert, Update, Delete,
}

unfoldable pub join_type_to_sql : JoinType → Text
join_type_to_sql inner = codes "INNER JOIN"
join_type_to_sql left_join = codes "LEFT JOIN"
join_type_to_sql right_join = codes "RIGHT JOIN"
join_type_to_sql full = codes "FULL OUTER JOIN"
join_type_to_sql cross = codes "CROSS JOIN"

abbrev pub direction_text : OrderDirection → Text
direction_text ascending = codes " ASC"
direction_text descending = codes " DESC"

abbrev pub is_cross : JoinType → Bool
is_cross cross = true
is_cross _ = false

abbrev pub is_empty {ℓ} : {A : Type ℓ} → List A → Bool
is_empty [] = true
is_empty (_ ∷ _) = false

module _ (int_to_text : ℤ → Text) (leaf : ℕ → Piece) (d : DialectType) where
  abbrev pub name : Text → Piece
  name s = sql (sql_quote_identifier d s)

  abbrev pub names : List Text → List Piece
  names [] = []
  names (s ∷ more) = name s ∷ names more

  abbrev pub expressions : List Expression → List Piece
  expressions [] = []
  expressions (e ∷ more) = compile_piece leaf e ∷ expressions more

  abbrev pub clause : Text → Option Expression → Piece
  clause word none = sql []
  clause word (some e) = concat (sql word ∷ compile_piece leaf e ∷ [])

  abbrev pub names_clause : Text → List Text → Piece
  names_clause word [] = sql []
  names_clause word (s ∷ more) = concat (sql word ∷ separated (names (s ∷ more)) ∷ [])

  -- The loop over the joins.
  unfoldable pub joins_piece : List JoinInfo → Piece
  unfolding concat join_type_to_sql compile_piece
  joins_piece [] = sql []
  joins_piece (j ∷ more) = concat (
      sql (codes " ")
      ∷ sql (join_type_to_sql j.join_type)
      ∷ sql (codes " ")
      ∷ name j.table
      ∷ (if is_cross j.join_type
          then sql []
          else concat (sql (codes " ON ") ∷ compile_piece leaf j.condition ∷ []))
      ∷ joins_piece more
      ∷ [])

  abbrev pub orders : List OrderInfo → List Piece
  orders [] = []
  orders (o ∷ more) = concat (name o.column ∷ sql (direction_text o.direction) ∷ []) ∷ orders more

  abbrev pub orders_clause : List OrderInfo → Piece
  orders_clause [] = sql []
  orders_clause (o ∷ more) = concat (sql (codes " ORDER BY ") ∷ separated (orders (o ∷ more)) ∷ [])

  abbrev pub number_clause : Text → Option ℤ → Piece
  number_clause word none = sql []
  number_clause word (some n) = sql (word ++ int_to_text n)

  abbrev pub columns_piece : List Expression → Piece
  columns_piece [] = sql (codes "*")
  columns_piece (e ∷ more) = separated (expressions (e ∷ more))

  abbrev pub select_pieces : Select → Expression → List Piece
  select_pieces s from_table =
      sql (codes "SELECT ")
      ∷ sql (if s.use_distinct then codes "DISTINCT " else [])
      ∷ columns_piece s.columns
      ∷ sql (codes " FROM ")
      ∷ compile_piece leaf from_table
      ∷ joins_piece s.joins
      ∷ clause (codes " WHERE ") s.where_clause
      ∷ names_clause (codes " GROUP BY ") s.group_by
      ∷ clause (codes " HAVING ") s.having_clause
      ∷ orders_clause s.order_by
      ∷ number_clause (codes " LIMIT ") s.limit_value
      ∷ number_clause (codes " OFFSET ") s.offset_value
      ∷ []

  -- orm_select_compile, which gives NULL without a table.
  unfoldable pub select_compile : Select → Option Piece
  unfolding concat separated compile_piece joins_piece
  select_compile s = elim s.from_table [
    | none ↦ none
    | some table ↦ some (concat (select_pieces s table))
  ]

  abbrev pub returning_clause : Bool → List Text → Piece
  returning_clause true columns = sql (codes " RETURNING *")
  returning_clause false columns = names_clause (codes " RETURNING ") columns

  abbrev pub first_names : List (Text × Expression) → List Piece
  first_names [] = []
  first_names ((column, e) ∷ more) = name column ∷ first_names more

  abbrev pub second_values : List (Text × Expression) → List Piece
  second_values [] = []
  second_values ((column, e) ∷ more) = compile_piece leaf e ∷ second_values more

  abbrev pub insert_pieces : Insert → List Piece
  insert_pieces i =
      sql (codes "INSERT INTO ")
      ∷ name i.table_name
      ∷ sql (codes " (")
      ∷ separated (first_names i.columns)
      ∷ sql (codes ")")
      ∷ sql (codes " VALUES (")
      ∷ separated (second_values i.columns)
      ∷ sql (codes ")")
      ∷ returning_clause i.returning_all i.returning
      ∷ []

  -- orm_insert_compile, which gives NULL without a column.
  unfoldable pub insert_compile : Insert → Option Piece
  unfolding concat separated compile_piece
  insert_compile i = if is_empty i.columns then none else some (concat (insert_pieces i))

  abbrev pub settings : List (Text × Expression) → List Piece
  settings [] = []
  settings ((column, e) ∷ more) =
      concat (name column ∷ sql (codes " = ") ∷ compile_piece leaf e ∷ []) ∷ settings more

  abbrev pub update_pieces : Update → List Piece
  update_pieces u =
      sql (codes "UPDATE ")
      ∷ name u.table_name
      ∷ sql (codes " SET ")
      ∷ separated (settings u.set_columns)
      ∷ clause (codes " WHERE ") u.where_clause
      ∷ returning_clause u.returning_all u.returning
      ∷ []

  -- orm_update_compile, which gives NULL without a column.
  unfoldable pub update_compile : Update → Option Piece
  unfolding concat separated compile_piece
  update_compile u = if is_empty u.set_columns then none else some (concat (update_pieces u))

  abbrev pub delete_pieces : Delete → List Piece
  delete_pieces s =
      sql (codes "DELETE FROM ")
      ∷ name s.table_name
      ∷ clause (codes " WHERE ") s.where_clause
      ∷ returning_clause s.returning_all s.returning
      ∷ []

  -- orm_delete_compile.
  unfoldable pub delete_compile : Delete → Piece
  unfolding concat separated compile_piece
  delete_compile s = concat (delete_pieces s)
