-- ===== src/Sql/Binary/Words.antt =====
-- The text that sql/orm-binary-expression.c gives comparisons, as a sequence of words: what a database
-- is sent of the way in which they are nested.
use orm_glib.Base.{
  ap, ◌∙◌, ◌&&◌, ◌||◌, ℕ, Bool, true, false, not, ◌==◌, ◌≡◌, refl, ◌++◌, List, [], ◌∷◌, Text, codes,
  Option, none, some, append-nil, sym, append_assoc, if◌then◌else◌, Bool-cases, inl, inr,
}
use orm_glib.Sql.Binary.{
  CompareOp, eq, ne, lt, le, gt, ge, is_null, is_not_null, inside, not_inside, LogicalOp,
  logical_and, logical_or, Expression, other, comparison, comparison_null, logical, negation,
  compare_op_to_sql, takes_no_right, compile, Semantics, SemanticsLaws, eval,
}

-- An operand that is no comparison, the operator of a comparison, or a right operand that is NULL.
pub data Word : Type 0 where
  operand : Expression → Word
  operator : CompareOp → Word
  missing : Word

-- The operands and operators of nested comparisons, from the left to the right.
unfoldable pub words : Expression → List Word
words (other n) = operand (other n) ∷ []
words (comparison left op right) =
    words left ++ (operator op ∷ (if takes_no_right op then [] else words right))
words (comparison_null left op) =
    words left ++ (operator op ∷ (if takes_no_right op then [] else missing ∷ []))
words (logical left op right) = operand (logical left op right) ∷ []
words (negation e) = operand (negation e) ∷ []

abbrev pub word : (ℕ → Text) → Word → Text
word leaf (operand e) = compile leaf e
word leaf (operator op) = compare_op_to_sql op
word leaf missing = codes "(null)"

-- The words with a space before each.
unfoldable pub spaced : (ℕ → Text) → List Word → Text
spaced leaf [] = []
spaced leaf (w ∷ ws) = codes " " ++ word leaf w ++ spaced leaf ws

module _ (leaf : ℕ → Text) where
  spaced-append : (ws vs : List Word) → spaced leaf (ws ++ vs) ≡ spaced leaf ws ++ spaced leaf vs
  unfolding spaced
  spaced-append [] vs = refl
  spaced-append (w ∷ ws) vs = rw (spaced-append ws vs) (simp append_assoc refl)

  -- The text of an expression is its words.
  spaced-words : (e : Expression) → codes " " ++ compile leaf e ≡ spaced leaf (words e)
  unfolding spaced words compile
  spaced-words (other n) = rw (append-nil (leaf n)) refl
  spaced-words (comparison left op right) = elim (Bool-cases (takes_no_right op)) [
    | inl e ↦
        rw (e, spaced-append (words left) (operator op ∷ []), sym (spaced-words left))
          (simp (append_assoc, append-nil) refl)
    | inr e ↦
        rw
          (
            e,
            spaced-append (words left) (operator op ∷ words right),
            sym (spaced-words left),
            sym (spaced-words right),
          )
          (simp append_assoc refl)
  ]
  spaced-words (comparison_null left op) = elim (Bool-cases (takes_no_right op)) [
    | inl e ↦
        rw (e, spaced-append (words left) (operator op ∷ []), sym (spaced-words left))
          (simp (append_assoc, append-nil) refl)
    | inr e ↦
        rw (e, spaced-append (words left) (operator op ∷ missing ∷ []), sym (spaced-words left))
          (simp append_assoc refl)
  ]
  spaced-words (logical left op right) = simp (append_assoc, append-nil) refl
  spaced-words (negation e) = simp (append_assoc, append-nil) refl

-- Comparisons of two truth values, false below true, and of no NULL; the operand 1 is false, and the
-- others are true.
abbrev less : Bool → Option Bool → Bool
less a none = false
less a (some b) = not a && b

abbrev same_truth : Bool → Option Bool → Bool
same_truth a none = false
same_truth a (some b) = if a then b else not b

abbrev compare_bits : CompareOp → Bool → Option Bool → Bool
compare_bits eq a b = same_truth a b
compare_bits ne a b = not (same_truth a b)
compare_bits lt a b = less a b
compare_bits ge a b = not (less a b)
compare_bits le a b = less a b || same_truth a b
compare_bits gt a b = not (less a b || same_truth a b)
compare_bits is_null a b = false
compare_bits is_not_null a b = true
compare_bits inside a b = same_truth a b
compare_bits not_inside a b = not (same_truth a b)
compare_bits _ a b = false

abbrev connect_bits : LogicalOp → Bool → Bool → Bool
connect_bits logical_and a b = a && b
connect_bits logical_or a b = a || b

abbrev pub bits : Semantics
bits = record {
  Val = Bool;
  value = λ n. not (n == 1);
  compare = compare_bits;
  connect = connect_bits;
  invert = not;
}

not_involutive : (a : Bool) → not (not a) ≡ a
not_involutive true = refl
not_involutive false = refl

bits_laws : SemanticsLaws bits
bits_laws = record {
  ne_eq = λ a b. refl;
  ge_lt = λ a b. refl;
  gt_le = λ a b. refl;
  not_null = λ a b. refl;
  not_in = λ a b. refl;
  invert_invert = not_involutive;
}

module _ (leaf : ℕ → Text) where
  -- What the way of nesting leaves in the words of two comparisons, which is nothing.
  words-nested :
      (a b c : Expression) (op op' : CompareOp)
      → takes_no_right op ≡ false
      → takes_no_right op' ≡ false
      → (words (comparison a op (comparison b op' c))
          ≡ words a ++ (operator op ∷ words b ++ (operator op' ∷ words c)))
        × (words (comparison (comparison a op b) op' c)
            ≡ words a ++ (operator op ∷ words b ++ (operator op' ∷ words c)))
  unfolding words
  words-nested a b c op op' h h' = (rw (h, h') refl, rw (h, h') (simp append_assoc refl))

  -- A comparison writes no parentheses: the text of any expression, with a space before it, is its
  -- operands that are no comparisons, with (null) for a right operand that is NULL, and its
  -- operators, from the left to the right, with a space before each; what stands on the right of IS
  -- NULL and IS NOT NULL is left out. So for any two other operators, comparing a with the
  -- comparison of b and c gives the same text as comparing the comparison of a and b with c,
  -- although the two can have different values under the laws of SQL: with < and a true, b false
  -- and c true, where false is below true, the first is false and the second true.
  pub compile_ambiguous :
      (e a b c : Expression) (op op' : CompareOp)
      → takes_no_right op ≡ false
      → takes_no_right op' ≡ false
      → (codes " " ++ compile leaf e ≡ spaced leaf (words e))
        × (codes " " ++ compile leaf (comparison a op (comparison b op' c))
            ≡ spaced leaf (words a ++ (operator op ∷ words b ++ (operator op' ∷ words c))))
        × (codes " " ++ compile leaf (comparison (comparison a op b) op' c)
            ≡ spaced leaf (words a ++ (operator op ∷ words b ++ (operator op' ∷ words c))))
        × SemanticsLaws bits
        × (eval bits (comparison (other 0) lt (comparison (other 1) lt (other 2))) ≡ false)
        × (eval bits (comparison (comparison (other 0) lt (other 1)) lt (other 2)) ≡ true)
  unfolding eval
  compile_ambiguous e a b c op op' h h' =
      let (right, left) = words-nested a b c op op' h h' in
      (
        spaced-words leaf e,
        spaced-words leaf (comparison a op (comparison b op' c)) ∙ ap (spaced leaf) right,
        spaced-words leaf (comparison (comparison a op b) op' c) ∙ ap (spaced leaf) left,
        bits_laws,
        refl,
        refl,
      )
