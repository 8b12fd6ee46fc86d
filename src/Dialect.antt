-- ===== src/Dialect.antt =====
-- dialect/: how each dialect quotes identifiers and strings.
pub mod Ddl
pub mod Quote
mod Samples
use orm_glib.Base.{ℕ, Bool, true, false, List, [], ◌∷◌, ◌++◌, Text, codes, if◌then◌else◌, ◌==◌}
use orm_glib.Engine.Driver.{DialectType, sqlite, postgres, mysql}

-- The character of the dialect's class: '"' is 34, '`' is 96 and ''' is 39.
unfoldable pub identifier_quote_char : DialectType → ℕ
identifier_quote_char mysql = 96
identifier_quote_char _ = 34

unfoldable pub string_quote_char : DialectType → ℕ
string_quote_char _ = 39

-- The loop that writes every quote twice.
unfoldable pub double : ℕ → Text → Text
double q [] = []
double q (c ∷ s) = if c == q then q ∷ c ∷ double q s else c ∷ double q s

-- orm_dialect_quote_identifier, and the function of the same shape of the dialect of MySQL.
unfoldable pub quote_identifier : DialectType → Text → Text
unfolding identifier_quote_char double
quote_identifier d s =
    identifier_quote_char d ∷ (double (identifier_quote_char d) s ++ identifier_quote_char d ∷ [])

-- orm_dialect_quote_string.
unfoldable pub quote_string : DialectType → Text → Text
unfolding string_quote_char double
quote_string d s =
    string_quote_char d ∷ (double (string_quote_char d) s ++ string_quote_char d ∷ [])

-- The function quote_identifier of sql/, which is written out in each of its files: the text between
-- two quotes.
unfoldable pub sql_quote_identifier : DialectType → Text → Text
sql_quote_identifier mysql s = 96 ∷ (s ++ 96 ∷ [])
sql_quote_identifier _ s = 34 ∷ (s ++ 34 ∷ [])
