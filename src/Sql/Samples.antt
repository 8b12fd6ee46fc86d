-- ===== src/Sql/Samples.antt =====
-- The theorems on expressions, at a string with a quote, at some bytes, and in a logic of three
-- values.
use orm_glib.Base.{ℕ, false, true, ◌≡◌, refl, [], ◌∷◌, ◌++◌, codes, Option, some, arith}
use orm_glib.Core.Value.{string, blob}
use orm_glib.Core.Value.Samples.{toy_platform}
use orm_glib.Sql.Literal.{literal_inline, read-literal_inline, read_string, hex_digits, read_hex}
use orm_glib.Sql.Binary.Words.{words, spaced, bits, compile_ambiguous}
use orm_glib.Sql.Binary.{
  CompareOp, eq, ne, lt, le, gt, ge, is_null, is_not_null, inside, not_inside, LogicalOp,
  logical_and, logical_or, Expression, other, comparison, logical, negation, negate, compile, eval,
  Semantics, SemanticsLaws, eval-negate, gt, eval,
}

read-literal_inline_example :
    (read_string
        (literal_inline toy_platform (λ _. []) (λ _. []) (string (codes "it's")) ++ codes ", 1")
      ≡ some (codes "it's", codes ", 1"))
    × (literal_inline toy_platform (λ _. []) (λ _. []) (blob (0 ∷ 171 ∷ 255 ∷ []))
        ≡ codes "X'" ++ hex_digits (0 ∷ 171 ∷ 255 ∷ []) ++ codes "'")
    × (read_hex (hex_digits (0 ∷ 171 ∷ 255 ∷ [])) ≡ 0 ∷ 171 ∷ 255 ∷ [])
read-literal_inline_example =
    read-literal_inline toy_platform (λ _. []) (λ _. []) (codes "it's") (codes ", 1")
      (0 ∷ 171 ∷ 255 ∷ []) refl (omega arith, (omega arith, (omega arith, tt)))

-- Values that are truths; `unknown` is NULL.
data Truth : Type 0 where
  yes no unknown : Truth

abbrev opposite_truth : Truth → Truth
opposite_truth yes = no
opposite_truth no = yes
opposite_truth unknown = unknown

abbrev equal_truth : Truth → Option Truth → Truth
equal_truth yes (some b) = b
equal_truth no (some b) = opposite_truth b
equal_truth _ _ = unknown

abbrev less_truth : Truth → Option Truth → Truth
less_truth no (some b) = b
less_truth yes (some b) = no
less_truth _ _ = unknown

abbrev null_truth : Truth → Truth
null_truth unknown = yes
null_truth _ = no

abbrev compare_truth : CompareOp → Truth → Option Truth → Truth
compare_truth eq a b = equal_truth a b
compare_truth ne a b = opposite_truth (equal_truth a b)
compare_truth lt a b = less_truth a b
compare_truth ge a b = opposite_truth (less_truth a b)
compare_truth le a b = less_truth a b
compare_truth gt a b = opposite_truth (less_truth a b)
compare_truth is_null a b = null_truth a
compare_truth is_not_null a b = opposite_truth (null_truth a)
compare_truth inside a b = equal_truth a b
compare_truth not_inside a b = opposite_truth (equal_truth a b)
compare_truth _ a b = unknown

abbrev connect_truth : LogicalOp → Truth → Truth → Truth
connect_truth logical_and yes b = b
connect_truth logical_and no b = no
connect_truth logical_or no b = b
connect_truth logical_or yes b = yes
connect_truth _ unknown b = unknown

abbrev truths : Semantics
truths = record {
  Val = Truth;
  value = λ n. unknown;
  compare = compare_truth;
  connect = connect_truth;
  invert = opposite_truth;
}

opposite_opposite : (a : Truth) → opposite_truth (opposite_truth a) ≡ a
opposite_opposite yes = refl
opposite_opposite no = refl
opposite_opposite unknown = refl

truths_laws : SemanticsLaws truths
truths_laws = record {
  ne_eq = λ a b. refl;
  ge_lt = λ a b. refl;
  gt_le = λ a b. refl;
  not_null = λ a b. refl;
  not_in = λ a b. refl;
  invert_invert = opposite_opposite;
}

abbrev condition : Expression
condition = logical (comparison (other 0) lt (other 1)) logical_or (negation (other 2))

eval-negate_example : eval truths (negate condition) ≡ opposite_truth (eval truths condition)
eval-negate_example = eval-negate truths truths_laws condition

abbrev negated : Expression
negated = negation (other 5)

compile_ambiguous_example :
    let leaf = λ (n : ℕ). codes "a" in
    (codes " " ++ compile leaf condition ≡ spaced leaf (words condition))
    × (codes " " ++ compile leaf (comparison (other 0) eq (comparison negated gt (other 2)))
        ≡ codes " a = NOT (a) > a")
    × (codes " " ++ compile leaf (comparison (comparison (other 0) eq negated) gt (other 2))
        ≡ codes " a = NOT (a) > a")
    × SemanticsLaws bits
    × (eval bits (comparison (other 0) lt (comparison (other 1) lt (other 2))) ≡ false)
    × (eval bits (comparison (comparison (other 0) lt (other 1)) lt (other 2)) ≡ true)
unfolding compile words spaced
compile_ambiguous_example =
    compile_ambiguous (λ n. codes "a") condition (other 0) negated (other 2) eq gt refl refl
