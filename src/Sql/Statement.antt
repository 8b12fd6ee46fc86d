-- ===== src/Sql/Statement.antt =====
-- sql/: the SELECT, INSERT, UPDATE and DELETE statements, and their text with the values that are
-- bound. A text that is built and a list of parameters that is appended to are a pair, `Piece`.
pub mod Balance
pub mod Build
pub mod Clauses
pub mod Compile
pub mod Fits
pub mod Placeholders
mod Samples
use orm_glib.Base.{
  ℕ, Bool, true, false, List, [], ◌∷◌, ◌++◌, Text, codes, if◌then◌else◌, Option, none, some,
}
use orm_glib.Base.Int.{ℤ}
use orm_glib.Core.Value.{Value}
use orm_glib.Engine.Driver.{DialectType}
use orm_glib.Dialect.{sql_quote_identifier}
use orm_glib.Sql.Binary.{
  CompareOp, LogicalOp, logical_and, logical_or, Expression, other, comparison, comparison_null,
  logical, negation, compare_op_to_sql, logical_op_to_sql, takes_no_right,
}

abbrev pub Piece : Type 0
Piece = Text × List Value

abbrev pub sql : Text → Piece
sql text = (text, [])

-- What is appended to the text, and to the parameters.
unfoldable pub concat : List Piece → Piece
concat [] = ([], [])
concat ((text, params) ∷ more) = (text ++ (concat more).0, params ++ (concat more).1)

-- The loops that put ", " between their elements.
unfoldable pub separated : List Piece → Piece
unfolding concat
separated [] = ([], [])
separated (piece ∷ []) = piece
separated (piece ∷ next ∷ more) = concat (piece ∷ sql (codes ", ") ∷ separated (next ∷ more) ∷ [])

-- orm_binary_expression_compile_impl with a list of parameters; `leaf` compiles an expression of
-- another class. A right operand of IS NULL is compiled, for its parameters, and its text dropped; a
-- right operand that is NULL is printed as printf prints it.
unfoldable pub compile_piece : (ℕ → Piece) → Expression → Piece
unfolding concat
compile_piece leaf (other n) = leaf n
compile_piece leaf (comparison left op right) =
    let l = compile_piece leaf left in
    let r = compile_piece leaf right in
    if takes_no_right op
    then (l.0 ++ (codes " " ++ compare_op_to_sql op), l.1 ++ r.1)
    else concat (l ∷ sql (codes " ") ∷ sql (compare_op_to_sql op) ∷ sql (codes " ") ∷ r ∷ [])
compile_piece leaf (comparison_null left op) =
    let l = compile_piece leaf left in
    concat (
      l
      ∷ sql (codes " ")
      ∷ sql (compare_op_to_sql op)
      ∷ sql (if takes_no_right op then [] else codes " (null)")
      ∷ [])
compile_piece leaf (logical left op right) = concat (
    sql (codes "(")
    ∷ compile_piece leaf left
    ∷ sql (codes ") ")
    ∷ sql (logical_op_to_sql op)
    ∷ sql (codes " (")
    ∷ compile_piece leaf right
    ∷ sql (codes ")")
    ∷ [])
compile_piece leaf (negation e) =
    concat (sql (codes "NOT (") ∷ compile_piece leaf e ∷ sql (codes ")") ∷ [])

-- OrmJoinType and OrmOrderDirection.
pub data JoinType : Type 0 where
  inner left_join right_join full cross : JoinType

pub data OrderDirection : Type 0 where
  ascending descending : OrderDirection

-- JoinInfo and OrderInfo.
pub record JoinInfo : Type 0 where
  pub table : Text
  pub condition : Expression
  pub join_type : JoinType

pub record OrderInfo : Type 0 where
  pub column : Text
  pub direction : OrderDirection

-- OrmSelect.
pub record Select : Type 0 where
  pub from_table : Option Expression
  pub columns : List Expression
  pub where_clause : Option Expression
  pub order_by : List OrderInfo
  pub group_by : List Text
  pub having_clause : Option Expression
  pub joins : List JoinInfo
  pub limit_value : Option ℤ
  pub offset_value : Option ℤ
  pub use_distinct : Bool

-- OrmInsert, whose columns come with their values.
pub record Insert : Type 0 where
  pub table_name : Text
  pub columns : List (Text × Expression)
  pub returning : List Text
  pub returning_all : Bool

-- OrmUpdate.
pub record Update : Type 0 where
  pub table_name : Text
  pub set_columns : List (Text × Expression)
  pub where_clause : Option Expression
  pub returning : List Text
  pub returning_all : Bool

-- OrmDelete.
pub record Delete : Type 0 where
  pub table_name : Text
  pub where_clause : Option Expression
  pub returning : List Text
  pub returning_all : Bool
