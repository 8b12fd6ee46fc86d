-- ===== src/Sql/Binary.antt =====
-- sql/orm-binary-expression.c: comparisons, AND, OR and NOT, with their negation and their text.
pub mod Words
use orm_glib.Base.{
  arith, ℕ, Bool, true, false, ◌≡◌, refl, ◌++◌, Text, codes, Option, none, some, append_assoc, sym,
  if◌then◌else◌,
}

-- OrmCompareOp, and OrmLogicalOp without ORM_LOGICAL_NOT, which new_logical refuses.
pub data CompareOp : Type 0 where
  eq ne lt le gt ge like ilike inside not_inside is_null is_not_null between : CompareOp

pub data LogicalOp : Type 0 where
  logical_and logical_or : LogicalOp

-- An OrmExpression: one of another class, by its number, or one of the three kinds of
-- OrmBinaryExpression. A comparison whose right operand is NULL is `comparison_null`.
pub data Expression : Type 0 where
  other : ℕ → Expression
  comparison : Expression → CompareOp → Expression → Expression
  comparison_null : Expression → CompareOp → Expression
  logical : Expression → LogicalOp → Expression → Expression
  negation : Expression → Expression

abbrev pub compare_op_to_sql : CompareOp → Text
compare_op_to_sql eq = codes "="
compare_op_to_sql ne = codes "!="
compare_op_to_sql lt = codes "<"
compare_op_to_sql le = codes "<="
compare_op_to_sql gt = codes ">"
compare_op_to_sql ge = codes ">="
compare_op_to_sql like = codes "LIKE"
compare_op_to_sql ilike = codes "ILIKE"
compare_op_to_sql inside = codes "IN"
compare_op_to_sql not_inside = codes "NOT IN"
compare_op_to_sql is_null = codes "IS NULL"
compare_op_to_sql is_not_null = codes "IS NOT NULL"
compare_op_to_sql between = codes "BETWEEN"

-- The operator that negate puts in place of another, if there is one.
unfoldable pub inverted : CompareOp → Option CompareOp
inverted eq = some ne
inverted ne = some eq
inverted lt = some ge
inverted le = some gt
inverted gt = some le
inverted ge = some lt
inverted is_null = some is_not_null
inverted is_not_null = some is_null
inverted inside = some not_inside
inverted not_inside = some inside
inverted _ = none

abbrev compare_or_wrap : Expression → Option CompareOp → (CompareOp → Expression) → Expression
compare_or_wrap whole none compared = negation whole
compare_or_wrap whole (some op) compared = compared op

-- orm_expression_negate, by the class of the expression. A clone is the same expression.
unfoldable pub negate : Expression → Expression
unfolding inverted
negate (other n) = negation (other n)
negate (comparison left op right) =
    compare_or_wrap (comparison left op right) (inverted op) λ op'. comparison left op' right
negate (comparison_null left op) =
    compare_or_wrap (comparison_null left op) (inverted op) λ op'. comparison_null left op'
negate (logical left op right) = negation (logical left op right)
negate (negation e) = e

abbrev pub takes_no_right : CompareOp → Bool
takes_no_right is_null = true
takes_no_right is_not_null = true
takes_no_right _ = false

abbrev pub logical_op_to_sql : LogicalOp → Text
logical_op_to_sql logical_and = codes "AND"
logical_op_to_sql logical_or = codes "OR"

-- The text of a comparison; printf writes "(null)" for a NULL string.
abbrev comparison_sql : Text → CompareOp → Text → Text
comparison_sql left op right =
    if takes_no_right op
    then left ++ codes " " ++ compare_op_to_sql op
    else left ++ codes " " ++ compare_op_to_sql op ++ codes " " ++ right

-- orm_expression_compile without the parameters; `leaf` is the text of another class.
unfoldable pub compile : (ℕ → Text) → Expression → Text
compile leaf (other n) = leaf n
compile leaf (comparison left op right) = comparison_sql (compile leaf left) op (compile leaf right)
compile leaf (comparison_null left op) = comparison_sql (compile leaf left) op (codes "(null)")
compile leaf (logical left op right) =
    codes "("
    ++ compile leaf left
    ++ codes ") "
    ++ logical_op_to_sql op
    ++ codes " ("
    ++ compile leaf right
    ++ codes ")"
compile leaf (negation e) = codes "NOT (" ++ compile leaf e ++ codes ")"

-- What a database computes: `compare` on values, and the connectives.
pub record Semantics : Type 1 where
  pub Val : Type 0
  pub value : ℕ → Val
  pub compare : CompareOp → Val → Option Val → Val
  pub connect : LogicalOp → Val → Val → Val
  pub invert : Val → Val

-- SQL's documented logic of three values: these operators come in opposite pairs, also on NULL.
pub record SemanticsLaws (m : Semantics) : Type 0 where
  pub ne_eq : (a : m.Val) (b : Option m.Val) → m.compare ne a b ≡ m.invert (m.compare eq a b)
  pub ge_lt : (a : m.Val) (b : Option m.Val) → m.compare ge a b ≡ m.invert (m.compare lt a b)
  pub gt_le : (a : m.Val) (b : Option m.Val) → m.compare gt a b ≡ m.invert (m.compare le a b)
  pub not_null :
      (a : m.Val) (b : Option m.Val) → m.compare is_not_null a b ≡ m.invert (m.compare is_null a b)
  pub not_in :
      (a : m.Val) (b : Option m.Val) → m.compare not_inside a b ≡ m.invert (m.compare inside a b)
  pub invert_invert : (a : m.Val) → m.invert (m.invert a) ≡ a

module _ (m : Semantics) where
  unfoldable pub eval : Expression → m.Val
  eval (other n) = m.value n
  eval (comparison left op right) = m.compare op (eval left) (some (eval right))
  eval (comparison_null left op) = m.compare op (eval left) none
  eval (logical left op right) = m.connect op (eval left) (eval right)
  eval (negation e) = m.invert (eval e)

  inverted_lem :
      (l : SemanticsLaws m) (op : CompareOp) (a : m.Val) (b : Option m.Val)
      → (whole : Expression) (compared : CompareOp → Expression) → eval whole ≡ m.compare op a b
      → ((op' : CompareOp) → eval (compared op') ≡ m.compare op' a b)
      → eval (compare_or_wrap whole (inverted op) compared) ≡ m.invert (eval whole)
  unfolding eval inverted
  inverted_lem l eq a b whole compared h k =
      ground (arith, h, k ne, l.ne_eq a b, l.invert_invert (m.compare eq a b))
  inverted_lem l ne a b whole compared h k =
      ground (arith, h, k eq, l.ne_eq a b, l.invert_invert (m.compare eq a b))
  inverted_lem l lt a b whole compared h k =
      ground (arith, h, k ge, l.ge_lt a b, l.invert_invert (m.compare lt a b))
  inverted_lem l ge a b whole compared h k =
      ground (arith, h, k lt, l.ge_lt a b, l.invert_invert (m.compare lt a b))
  inverted_lem l le a b whole compared h k =
      ground (arith, h, k gt, l.gt_le a b, l.invert_invert (m.compare le a b))
  inverted_lem l gt a b whole compared h k =
      ground (arith, h, k le, l.gt_le a b, l.invert_invert (m.compare le a b))
  inverted_lem l is_null a b whole compared h k =
      ground (arith, h, k is_not_null, l.not_null a b, l.invert_invert (m.compare is_null a b))
  inverted_lem l is_not_null a b whole compared h k =
      ground (arith, h, k is_null, l.not_null a b, l.invert_invert (m.compare is_null a b))
  inverted_lem l inside a b whole compared h k =
      ground (arith, h, k not_inside, l.not_in a b, l.invert_invert (m.compare inside a b))
  inverted_lem l not_inside a b whole compared h k =
      ground (arith, h, k inside, l.not_in a b, l.invert_invert (m.compare inside a b))
  inverted_lem l like a b whole compared h k = refl
  inverted_lem l ilike a b whole compared h k = refl
  inverted_lem l between a b whole compared h k = refl

  -- Under SQL's logic of three values, where != is the opposite of =, >= of <, > of <=, IS NOT NULL
  -- of IS NULL and NOT IN of IN, and a double NOT is none, the negation of an expression has the opposite value.
  pub eval-negate : (l : SemanticsLaws m) (e : Expression) → eval (negate e) ≡ m.invert (eval e)
  unfolding negate eval
  eval-negate l (other n) = refl
  eval-negate l (comparison left op right) =
      inverted_lem l op (eval left) (some (eval right)) (comparison left op right)
        (λ op'. comparison left op' right) refl (λ op'. refl)
  eval-negate l (comparison_null left op) =
      inverted_lem l op (eval left) none (comparison_null left op) (λ op'. comparison_null left op')
        refl (λ op'. refl)
  eval-negate l (logical left op right) = refl
  eval-negate l (negation e) = sym (l.invert_invert (eval e))
