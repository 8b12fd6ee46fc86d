-- ===== src/Sql/Statement/Clauses.antt =====
-- Each clause of a statement binds as many values as it has placeholders.
use orm_glib.Base.{
  ℕ, ◌≡◌, refl, Bool, true, false, List, [], ◌∷◌, Text, codes, if◌then◌else◌, Option, none, some,
  All, Bool-cases, inl, inr, arith, ◌∙◌,
}
use orm_glib.Base.Int.{ℤ}
use orm_glib.Engine.Driver.{DialectType}
use orm_glib.Sql.Binary.{Expression}
use orm_glib.Sql.Statement.{
  Piece, sql, concat, separated, compile_piece, OrderDirection, ascending, descending, JoinInfo,
  OrderInfo,
}
use orm_glib.Sql.Statement.Compile.{
  join_type_to_sql, direction_text, is_cross, name, names, expressions, clause, names_clause,
  joins_piece, orders, orders_clause, number_clause, columns_piece, returning_clause, first_names,
  second_values, settings,
}
use orm_glib.Sql.Statement.Fits.{JoinFits, ColumnFits}
use orm_glib.Sql.Statement.Placeholders.{
  marks, IsBalanced, IsPlain, IsPlainOption, Unmarked, marks-append, concat-IsBalanced,
  separated-IsBalanced, sql_quote_identifier-marks, join_type_to_sql-marks,
  compile_piece-IsBalanced,
}

module _ (int_to_text : ℤ → Text) (leaf : ℕ → Piece) (d : DialectType)
    (digits : (n : ℤ) → Unmarked (int_to_text n)) (leaves : (n : ℕ) → IsBalanced (leaf n)) where
  pub name-IsBalanced : (s : Text) → Unmarked s → IsBalanced (name int_to_text leaf d s)
  name-IsBalanced s h = sql_quote_identifier-marks d s ∙ h

  pub names-IsBalanced :
      (l : List Text) → All Unmarked l → All IsBalanced (names int_to_text leaf d l)
  names-IsBalanced [] h = tt
  names-IsBalanced (s ∷ l) (h, hs) = (name-IsBalanced s h, names-IsBalanced l hs)

  pub expressions-IsBalanced :
      (l : List Expression) → All IsPlain l → All IsBalanced (expressions int_to_text leaf d l)
  expressions-IsBalanced [] h = tt
  expressions-IsBalanced (e ∷ l) (h, hs) =
      (compile_piece-IsBalanced leaf leaves e h, expressions-IsBalanced l hs)

  pub clause-IsBalanced :
      (word : Text) (o : Option Expression)
      → Unmarked word
      → IsPlainOption o
      → IsBalanced (clause int_to_text leaf d word o)
  clause-IsBalanced word none w h = refl
  clause-IsBalanced word (some e) w h =
      concat-IsBalanced (sql word ∷ compile_piece leaf e ∷ [])
        (w, (compile_piece-IsBalanced leaf leaves e h, tt))

  pub names_clause-IsBalanced :
      (word : Text) (l : List Text)
      → Unmarked word
      → All Unmarked l
      → IsBalanced (names_clause int_to_text leaf d word l)
  names_clause-IsBalanced word [] w h = refl
  names_clause-IsBalanced word (s ∷ l) w h =
      concat-IsBalanced (sql word ∷ separated (names int_to_text leaf d (s ∷ l)) ∷ []) (
        w,
        (separated-IsBalanced (names int_to_text leaf d (s ∷ l)) (names-IsBalanced (s ∷ l) h), tt),
      )

  pub on-IsBalanced :
      (j : JoinInfo)
      → IsPlain j.condition
      → IsBalanced (
          if is_cross j.join_type
          then sql []
          else concat (sql (codes " ON ") ∷ compile_piece leaf j.condition ∷ []))
  on-IsBalanced j h = elim (Bool-cases (is_cross j.join_type)) [
    | inl e ↦ rw e refl
    | inr e ↦ rw e (
        concat-IsBalanced (sql (codes " ON ") ∷ compile_piece leaf j.condition ∷ [])
          (refl, (compile_piece-IsBalanced leaf leaves j.condition h, tt)))
  ]

  pub joins-IsBalanced :
      (l : List JoinInfo) → All JoinFits l → IsBalanced (joins_piece int_to_text leaf d l)
  unfolding joins_piece
  joins-IsBalanced [] h = refl
  joins-IsBalanced (j ∷ l) ((t, c), hs) =
      concat-IsBalanced
        (sql (codes " ")
          ∷ sql (join_type_to_sql j.join_type)
          ∷ sql (codes " ")
          ∷ name int_to_text leaf d j.table
          ∷ (if is_cross j.join_type
              then sql []
              else concat (sql (codes " ON ") ∷ compile_piece leaf j.condition ∷ []))
          ∷ joins_piece int_to_text leaf d l
          ∷ [])
        (
          refl,
          (
            join_type_to_sql-marks j.join_type,
            (refl, (name-IsBalanced j.table t, (on-IsBalanced j c, (joins-IsBalanced l hs, tt)))),
          ),
        )

  pub direction-marks : (o : OrderDirection) → marks (direction_text o) ≡ 0
  direction-marks ascending = refl
  direction-marks descending = refl

  pub orders-IsBalanced :
      (l : List OrderInfo)
      → All (λ (o : OrderInfo). Unmarked o.column) l
      → All IsBalanced (orders int_to_text leaf d l)
  orders-IsBalanced [] h = tt
  orders-IsBalanced (o ∷ l) (h, hs) = (
    concat-IsBalanced (name int_to_text leaf d o.column ∷ sql (direction_text o.direction) ∷ [])
        (name-IsBalanced o.column h, (direction-marks o.direction, tt)),
    orders-IsBalanced l hs,
  )

  pub orders_clause-IsBalanced :
      (l : List OrderInfo)
      → All (λ (o : OrderInfo). Unmarked o.column) l
      → IsBalanced (orders_clause int_to_text leaf d l)
  orders_clause-IsBalanced [] h = refl
  orders_clause-IsBalanced (o ∷ l) h =
      concat-IsBalanced
        (sql (codes " ORDER BY ") ∷ separated (orders int_to_text leaf d (o ∷ l)) ∷ [])
        (
          refl,
          (
            separated-IsBalanced (orders int_to_text leaf d (o ∷ l)) (orders-IsBalanced (o ∷ l) h),
            tt,
          ),
        )

  pub number_clause-IsBalanced :
      (word : Text) (o : Option ℤ)
      → Unmarked word
      → IsBalanced (number_clause int_to_text leaf d word o)
  number_clause-IsBalanced word none w = refl
  number_clause-IsBalanced word (some n) w =
      omega (arith, marks-append word (int_to_text n), digits n)

  pub columns-IsBalanced :
      (l : List Expression) → All IsPlain l → IsBalanced (columns_piece int_to_text leaf d l)
  columns-IsBalanced [] h = refl
  columns-IsBalanced (e ∷ l) h =
      separated-IsBalanced (expressions int_to_text leaf d (e ∷ l))
        (expressions-IsBalanced (e ∷ l) h)

  pub returning-IsBalanced :
      (b : Bool) (l : List Text)
      → All Unmarked l
      → IsBalanced (returning_clause int_to_text leaf d b l)
  returning-IsBalanced true l h = refl
  returning-IsBalanced false l h = names_clause-IsBalanced (codes " RETURNING ") l refl h

  pub first_names-IsBalanced :
      (l : List (Text × Expression))
      → All ColumnFits l
      → All IsBalanced (first_names int_to_text leaf d l)
  first_names-IsBalanced [] h = tt
  first_names-IsBalanced ((c, e) ∷ l) ((h, k), hs) =
      (name-IsBalanced c h, first_names-IsBalanced l hs)

  pub second_values-IsBalanced :
      (l : List (Text × Expression))
      → All ColumnFits l
      → All IsBalanced (second_values int_to_text leaf d l)
  second_values-IsBalanced [] h = tt
  second_values-IsBalanced ((c, e) ∷ l) ((h, k), hs) =
      (compile_piece-IsBalanced leaf leaves e k, second_values-IsBalanced l hs)

  pub settings-IsBalanced :
      (l : List (Text × Expression))
      → All ColumnFits l
      → All IsBalanced (settings int_to_text leaf d l)
  settings-IsBalanced [] h = tt
  settings-IsBalanced ((c, e) ∷ l) ((h, k), hs) = (
    concat-IsBalanced (name int_to_text leaf d c ∷ sql (codes " = ") ∷ compile_piece leaf e ∷ [])
        (name-IsBalanced c h, (refl, (compile_piece-IsBalanced leaf leaves e k, tt))),
    settings-IsBalanced l hs,
  )

  pub distinct-marks : (b : Bool) → marks (if b then codes "DISTINCT " else []) ≡ 0
  distinct-marks true = refl
  distinct-marks false = refl
