-- ===== src/Dialect/Ddl/Closed.antt =====
-- The definition of a column ends where the compiler ends it.
use orm_glib.Base.{
  ℕ, ◌≡◌, refl, Bool, true, false, not, ◌&&◌, Option, none, some, [], ◌∷◌, ◌++◌, Text, codes,
  text_eq, if◌then◌else◌, ◌==◌, Bool-cases, inl, inr, arith,
}
use orm_glib.Engine.Driver.{DialectType, sqlite, postgres, mysql}
use orm_glib.Schema.{Column}
use orm_glib.Dialect.{identifier_quote_char, double, quote_identifier, sql_quote_identifier}
use orm_glib.Dialect.Ddl.{
  when, get_column_type_sql, default_text, serial, sqlite_column_definition,
  postgres_column_definition, mysql_column_definition, column_definition,
}
use orm_glib.Dialect.Ddl.Types.{TypeFitsOption, type_of-IsClosed}
use orm_glib.Dialect.Ddl.Reader.{outside, inside, is_quote, step, run, IsClosed, append-IsClosed}

-- A name without the quote of its dialect.
abbrev pub IsUnquoted : ℕ → Text → Type 0
IsUnquoted q [] = Unit {0}
IsUnquoted q (c ∷ s) = ((c == q) ≡ false) × IsUnquoted q s

abbrev pub IsName : DialectType → Text → Type 0
IsName d s = IsUnquoted (identifier_quote_char d) s

unquoted-inside : (q n : ℕ) (s : Text) → IsUnquoted q s → run (inside q n) (s ++ q ∷ []) ≡ outside n
unfolding run step
unquoted-inside q n [] h = ground arith
unquoted-inside q n (c ∷ s) (h, hs) = ground (arith, h, unquoted-inside q n s hs)

double-inside :
    (q n : ℕ) (s : Text) → is_quote q ≡ true → run (inside q n) (double q s ++ q ∷ []) ≡ outside n
unfolding run step double
double-inside q n [] e = ground arith
double-inside q n (c ∷ s) e = elim (Bool-cases (c == q)) [
  | inl h ↦ ground (arith, e, h, double-inside q n s e)
  | inr h ↦ ground (arith, e, h, double-inside q n s e)
]

pub name-IsClosed : (d : DialectType) (s : Text) → IsName d s → IsClosed (sql_quote_identifier d s)
unfolding run step sql_quote_identifier identifier_quote_char
name-IsClosed mysql s h = record { at = λ n. unquoted-inside 96 n s h }
name-IsClosed sqlite s h = record { at = λ n. unquoted-inside 34 n s h }
name-IsClosed postgres s h = record { at = λ n. unquoted-inside 34 n s h }

-- Any name, since its quotes are doubled.
quote_identifier-IsClosed : (d : DialectType) (s : Text) → IsClosed (quote_identifier d s)
unfolding run step quote_identifier identifier_quote_char
quote_identifier-IsClosed mysql s = record { at = λ n. double-inside 96 n s refl }
quote_identifier-IsClosed sqlite s = record { at = λ n. double-inside 34 n s refl }
quote_identifier-IsClosed postgres s = record { at = λ n. double-inside 34 n s refl }

pub when-IsClosed : (b : Bool) (t : Text) → IsClosed t → IsClosed (when b t)
unfolding run
when-IsClosed true t h = h
when-IsClosed false t h = record { at = λ n. refl }

-- A column whose default is closed by itself, and whose type, if it is of a class of a program; its
-- name may be anything.
abbrev pub IsClosedOption : Option Text → Type 0
IsClosedOption none = Unit {0}
IsClosedOption (some t) = IsClosed t

pub record ColumnFits (d : DialectType) (c : Column) : Type 0 where
  pub sql_type : TypeFitsOption d c.sql_type
  pub default_value : IsClosedOption c.default_value

default-IsClosed : (o : Option Text) → IsClosedOption o → IsClosed (default_text o)
unfolding run step
default-IsClosed none h = record { at = λ n. refl }
default-IsClosed (some t) h = append-IsClosed (codes " DEFAULT ") t (record { at = λ n. refl }) h

-- The words behind a type.
pub words-IsClosed :
    (b : Bool) (word rest : Text) → IsClosed word → IsClosed rest → IsClosed (when b word ++ rest)
words-IsClosed b word rest h k = append-IsClosed (when b word) rest (when-IsClosed b word h) k

serial-IsClosed : (b : Bool) (t : Text) → IsClosed t → IsClosed (if b then serial t else t)
unfolding run step
serial-IsClosed false t h = h
serial-IsClosed true t h = elim (Bool-cases (text_eq t (codes "BIGINT"))) [
  | inl e ↦ rw e (record { at = λ n. refl })
  | inr e ↦ rw e (record { at = λ n. refl })
]

module _ (d : DialectType) (c : Column) (f : ColumnFits d c) where
  type-IsClosed : IsClosed (get_column_type_sql d c)
  unfolding get_column_type_sql
  type-IsClosed = type_of-IsClosed d c.sql_type f.sql_type

  named-IsClosed :
      (rest : Text) → IsClosed rest → IsClosed (quote_identifier d c.name ++ (codes " " ++ rest))
  unfolding run step
  named-IsClosed rest h =
      append-IsClosed (quote_identifier d c.name) _ (quote_identifier-IsClosed d c.name)
        (append-IsClosed (codes " ") rest (record { at = λ n. refl }) h)

sqlite-IsClosed : (c : Column) → ColumnFits sqlite c → IsClosed (sqlite_column_definition c)
unfolding run step sqlite_column_definition
sqlite-IsClosed c f = named-IsClosed sqlite c f _ (
    append-IsClosed (get_column_type_sql sqlite c) _ (type-IsClosed sqlite c f) (
      words-IsClosed c.primary_key _ _
        (append-IsClosed (codes " PRIMARY KEY") _ (record { at = λ n. refl })
          (when-IsClosed c.autoincrement (codes " AUTOINCREMENT") (record { at = λ n. refl })))
        (words-IsClosed (not c.nullable && not c.primary_key) _ _ (record { at = λ n. refl })
          (words-IsClosed (c.unique && not c.primary_key) _ _ (record { at = λ n. refl })
            (default-IsClosed c.default_value f.default_value)))))

postgres-IsClosed : (c : Column) → ColumnFits postgres c → IsClosed (postgres_column_definition c)
unfolding run step postgres_column_definition
postgres-IsClosed c f = named-IsClosed postgres c f _ (
    append-IsClosed _ _
      (serial-IsClosed c.autoincrement (get_column_type_sql postgres c)
        (type-IsClosed postgres c f))
      (words-IsClosed c.primary_key _ _ (record { at = λ n. refl })
        (words-IsClosed (not c.nullable && not c.primary_key) _ _ (record { at = λ n. refl })
          (words-IsClosed (c.unique && not c.primary_key) _ _ (record { at = λ n. refl })
            (when-IsClosed (not c.autoincrement) _
              (default-IsClosed c.default_value f.default_value))))))

mysql-IsClosed : (c : Column) → ColumnFits mysql c → IsClosed (mysql_column_definition c)
unfolding run step mysql_column_definition
mysql-IsClosed c f = named-IsClosed mysql c f _ (
    append-IsClosed (get_column_type_sql mysql c) _ (type-IsClosed mysql c f) (
      words-IsClosed (not c.nullable && not c.primary_key) _ _ (record { at = λ n. refl })
        (words-IsClosed c.autoincrement _ _ (record { at = λ n. refl })
          (words-IsClosed c.primary_key _ _ (record { at = λ n. refl })
            (words-IsClosed (c.unique && not c.primary_key) _ _ (record { at = λ n. refl })
              (when-IsClosed (not c.autoincrement) _
                (default-IsClosed c.default_value f.default_value)))))))

pub column_definition-IsClosed :
    (d : DialectType) (c : Column) → ColumnFits d c → IsClosed (column_definition d c)
unfolding column_definition
column_definition-IsClosed sqlite c f = sqlite-IsClosed c f
column_definition-IsClosed postgres c f = postgres-IsClosed c f
column_definition-IsClosed mysql c f = mysql-IsClosed c f
