-- ===== src/Dialect/Ddl/Reader.antt =====
-- How a database goes through a statement, character by character: which parentheses are open, and
-- whether it is inside a name or a string, where a doubled quote goes on.
use orm_glib.Base.{
  ℕ, zero, suc, ◌≡◌, refl, ◌∙◌, ap, Bool, ◌||◌, [], ◌∷◌, ◌++◌, Text, if◌then◌else◌, ◌==◌,
}

-- Outside names and strings with some parentheses open, or inside one that ends with a quote.
pub data Place : Type 0 where
  broken : Place
  outside : ℕ → Place
  inside : ℕ → ℕ → Place

abbrev pub is_quote : ℕ → Bool
is_quote c = c == 34 || c == 39 || c == 96

-- A parenthesis that closes none breaks the statement.
abbrev pub closing : ℕ → Place
closing zero = broken
closing (suc n) = outside n

unfoldable pub step : Place → ℕ → Place
step broken c = broken
step (outside n) c =
    if is_quote c
    then inside c n
    else if c == 40
    then outside (suc n)
    else if c == 41
    then closing n
    else outside n
step (inside q n) c = if c == q then outside n else inside q n

unfoldable pub run : Place → Text → Place
unfolding step
run l [] = l
run l (c ∷ s) = run (step l c) s

-- A text behind which the same parentheses are open as before it, wherever it stands outside names
-- and strings.
pub record IsClosed (t : Text) : Type 0 where
  pub at : (n : ℕ) → run (outside n) t ≡ outside n

-- One that opens a parenthesis, and one that closes it.
abbrev pub Opens : Text → Type 0
Opens t = (n : ℕ) → run (outside n) t ≡ outside (suc n)

abbrev pub Closes : Text → Type 0
Closes t = (n : ℕ) → run (outside (suc n)) t ≡ outside n

pub run-append : (l : Place) (s t : Text) → run l (s ++ t) ≡ run (run l s) t
unfolding run
run-append l [] t = refl
run-append l (c ∷ s) t = run-append (step l c) s t

pub append-IsClosed : (s t : Text) → IsClosed s → IsClosed t → IsClosed (s ++ t)
append-IsClosed s t h k = record {
  at = λ n. run-append (outside n) s t ∙ (ap (λ l. run l t) (h.at n) ∙ k.at n);
}

pub enclosed-IsClosed :
    (s t u v : Text)
    → Opens s
    → IsClosed t
    → Closes u
    → IsClosed v
    → IsClosed (s ++ (t ++ (u ++ v)))
enclosed-IsClosed s t u v opens h closes k = record {
  at = λ n.
      run-append (outside n) s (t ++ (u ++ v))
      ∙ (ap (λ l. run l (t ++ (u ++ v))) (opens n)
          ∙ (run-append (outside (suc n)) t (u ++ v)
              ∙ (ap (λ l. run l (u ++ v)) (h.at (suc n))
                  ∙ (run-append (outside (suc n)) u v ∙ (ap (λ l. run l v) (closes n) ∙ k.at n)))));
}
