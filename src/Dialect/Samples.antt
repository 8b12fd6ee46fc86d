-- ===== src/Dialect/Samples.antt =====
-- Names with a quote in them.
use orm_glib.Base.{◌≡◌, ◌↔◌, refl, some, ◌++◌, codes}
use orm_glib.Engine.Driver.{sqlite, mysql}
use orm_glib.Dialect.{
  identifier_quote_char, string_quote_char, quote_identifier, quote_string, sql_quote_identifier,
}
use orm_glib.Dialect.Quote.{read_quoted, count, read_quoted-quote}

read_quoted-quote_example :
    (read_quoted 96 (quote_identifier mysql (codes "a`b'") ++ codes " x")
      ≡ some (codes "a`b'", codes " x"))
    × (read_quoted 39 (quote_string mysql (codes "a`b'") ++ codes " x")
        ≡ some (codes "a`b'", codes " x"))
    × ((read_quoted 96 (sql_quote_identifier mysql (codes "a`b'") ++ codes " x")
          ≡ some (codes "a`b'", codes " x"))
        ↔ (count 96 (codes "a`b'") ≡ 0))
unfolding identifier_quote_char string_quote_char
read_quoted-quote_example = read_quoted-quote mysql (codes "a`b'") (codes " x") refl refl

injected :
    read_quoted 34 (sql_quote_identifier sqlite (codes "x\"; --"))
    ≡ some (codes "x", codes "; --\"")
unfolding read_quoted sql_quote_identifier
injected = refl
