-- ===== src/Sql/Statement/Placeholders.antt =====
-- The placeholders of a statement against the values that are bound to them.
use orm_glib.Base.{
  ℕ, ◌+◌, ◌≡◌, refl, false, List, [], ◌∷◌, ◌++◌, Text, codes, if◌then◌else◌, Option, none, some,
  All, length, length-append, ◌==◌, arith,
}
use orm_glib.Engine.Driver.{DialectType, sqlite, postgres, mysql}
use orm_glib.Dialect.{sql_quote_identifier}
use orm_glib.Sql.Binary.{
  CompareOp, eq, LogicalOp, logical_and, logical_or, Expression, other, comparison, comparison_null,
  logical, negation, compare_op_to_sql, logical_op_to_sql, takes_no_right,
}
use orm_glib.Sql.Statement.{Piece, sql, concat, separated, compile_piece, JoinType, inner}
use orm_glib.Sql.Statement.Compile.{join_type_to_sql}

-- The placeholders in a text; '?' is 63.
abbrev pub marks : Text → ℕ
marks [] = 0
marks (c ∷ s) = (if c == 63 then 1 else 0) + marks s

-- As many values are bound as there are placeholders.
abbrev pub IsBalanced : Piece → Type 0
IsBalanced p = marks p.0 ≡ length p.1

-- No comparison by IS NULL has a right operand, whose values would be bound without a placeholder.
abbrev pub IsPlain : Expression → Type 0
IsPlain (other n) = Unit
IsPlain (comparison left op right) = (takes_no_right op ≡ false) × IsPlain left × IsPlain right
IsPlain (comparison_null left op) = IsPlain left
IsPlain (logical left op right) = IsPlain left × IsPlain right
IsPlain (negation e) = IsPlain e

abbrev pub IsPlainOption : Option Expression → Type 0
IsPlainOption none = Unit
IsPlainOption (some e) = IsPlain e

-- A list that is not empty, and a table that is given.
abbrev pub IsNonempty : List (Text × Expression) → Type 0
IsNonempty [] = ⊥
IsNonempty (_ ∷ _) = Unit

abbrev pub IsPlainTable : Option Expression → Type 0
IsPlainTable none = ⊥
IsPlainTable (some e) = IsPlain e

-- There is a text, and it binds as many values as there are placeholders.
abbrev pub IsBalancedText : Option Piece → Type 0
IsBalancedText none = ⊥
IsBalancedText (some p) = IsBalanced p

-- A name with no question mark.
abbrev pub Unmarked : Text → Type 0
Unmarked s = marks s ≡ 0

pub marks-append : (a b : Text) → marks (a ++ b) ≡ marks a + marks b
marks-append [] b = omega arith
marks-append (c ∷ a) b = omega (arith, marks-append a b)

pub concat-IsBalanced : (ps : List Piece) → All IsBalanced ps → IsBalanced (concat ps)
unfolding concat
concat-IsBalanced [] h = refl
concat-IsBalanced ((text, params) ∷ ps) (h, hs) = omega (
  arith,
  concat-IsBalanced ps hs,
  marks-append text (concat ps).0,
  length-append params (concat ps).1,
)

pub separated-IsBalanced : (ps : List Piece) → All IsBalanced ps → IsBalanced (separated ps)
unfolding separated
separated-IsBalanced [] h = refl
separated-IsBalanced (p ∷ []) (h, hs) = h
separated-IsBalanced (p ∷ q ∷ ps) (h, hs) =
    concat-IsBalanced (p ∷ sql (codes ", ") ∷ separated (q ∷ ps) ∷ [])
      (h, (refl, (separated-IsBalanced (q ∷ ps) hs, tt)))

compare_op_to_sql-marks : (op : CompareOp) → marks (compare_op_to_sql op) ≡ 0
compare_op_to_sql-marks eq = refl
compare_op_to_sql-marks _ = refl

logical_op_to_sql-marks : (op : LogicalOp) → marks (logical_op_to_sql op) ≡ 0
logical_op_to_sql-marks logical_and = refl
logical_op_to_sql-marks logical_or = refl

pub sql_quote_identifier-marks :
    (d : DialectType) (s : Text) → marks (sql_quote_identifier d s) ≡ marks s
unfolding sql_quote_identifier
sql_quote_identifier-marks mysql s = ground (arith, marks-append s (96 ∷ []))
sql_quote_identifier-marks sqlite s = ground (arith, marks-append s (34 ∷ []))
sql_quote_identifier-marks postgres s = ground (arith, marks-append s (34 ∷ []))

pub join_type_to_sql-marks : (t : JoinType) → marks (join_type_to_sql t) ≡ 0
unfolding join_type_to_sql
join_type_to_sql-marks inner = refl
join_type_to_sql-marks _ = refl

module _ (leaf : ℕ → Piece) (leaves : (n : ℕ) → IsBalanced (leaf n)) where
  pub compile_piece-IsBalanced : (e : Expression) → IsPlain e → IsBalanced (compile_piece leaf e)
  unfolding compile_piece
  compile_piece-IsBalanced (other n) h = leaves n
  compile_piece-IsBalanced (comparison left op right) (h, hl, hr) =
      let l = compile_piece leaf left in
      let r = compile_piece leaf right in
      rw h (
        concat-IsBalanced
          (l ∷ sql (codes " ") ∷ sql (compare_op_to_sql op) ∷ sql (codes " ") ∷ r ∷ [])
          (
            compile_piece-IsBalanced left hl,
            (refl, (compare_op_to_sql-marks op, (refl, (compile_piece-IsBalanced right hr, tt)))),
          ))
  compile_piece-IsBalanced (comparison_null left op) h =
      concat-IsBalanced
        (compile_piece leaf left
          ∷ sql (codes " ")
          ∷ sql (compare_op_to_sql op)
          ∷ sql (if takes_no_right op then [] else codes " (null)")
          ∷ [])
        (compile_piece-IsBalanced left h, (refl, (compare_op_to_sql-marks op, (ground arith, tt))))
  compile_piece-IsBalanced (logical left op right) (hl, hr) =
      concat-IsBalanced
        (sql (codes "(")
          ∷ compile_piece leaf left
          ∷ sql (codes ") ")
          ∷ sql (logical_op_to_sql op)
          ∷ sql (codes " (")
          ∷ compile_piece leaf right
          ∷ sql (codes ")")
          ∷ [])
        (
          refl,
          (
            compile_piece-IsBalanced left hl,
            (
              refl,
              (logical_op_to_sql-marks op, (refl, (compile_piece-IsBalanced right hr, (refl, tt)))),
            ),
          ),
        )
  compile_piece-IsBalanced (negation e) h =
      concat-IsBalanced (sql (codes "NOT (") ∷ compile_piece leaf e ∷ sql (codes ")") ∷ [])
        (refl, (compile_piece-IsBalanced e h, (refl, tt)))
