-- ===== src/Sql/Literal.antt =====
-- sql/orm-literal.c: a literal as SQL text.
use orm_glib.Base.{
  ℕ, Bool, true, false, ◌≡◌, refl, List, [], ◌∷◌, ◌++◌, Text, codes, if◌then◌else◌, ◌==◌, Option,
  none, some, ◌/◌, ◌%◌, ◌+◌, ltb, arith, Bool-cases, inl, inr, append_assoc, ap, ◌∙◌, ◌-◌, ◌*◌, ◌<◌,
  All,
}
use orm_glib.Core.Value.{Value, null, integer, float, string, blob, boolean, datetime}
use orm_glib.Core.Platform.{Platform}

-- The loop of escape_string; the quote is 39.
unfoldable pub escape_rest : Text → Text
escape_rest [] = []
escape_rest (c ∷ s) = if c == 39 then 39 ∷ 39 ∷ escape_rest s else c ∷ escape_rest s

unfoldable pub escape_string : Text → Text
unfolding escape_rest
escape_string s = 39 ∷ (escape_rest s ++ 39 ∷ [])

-- "%02X" on a byte: '0' is 48, 'A' is 65.
abbrev hex_digit : ℕ → ℕ
hex_digit n = if ltb n 10 then 48 + n else 55 + n

unfoldable pub hex_digits : Text → Text
hex_digits [] = []
hex_digits (b ∷ bytes) = hex_digit (b / 16) ∷ hex_digit (b % 16) ∷ hex_digits bytes

-- The literal inline, without a list of parameters. `float_text` is g_strdup_printf ("%g"), and
-- `iso8601` g_date_time_format_iso8601.
unfoldable pub literal_inline : Platform → (ℕ → Text) → (ℕ → Text) → Value → Text
unfolding escape_string hex_digits
literal_inline p float_text iso8601 null = codes "NULL"
literal_inline p float_text iso8601 (integer n) = p.int_to_text n
literal_inline p float_text iso8601 (float n) = float_text n
literal_inline p float_text iso8601 (string s) = escape_string s
literal_inline p float_text iso8601 (boolean b) = if b then codes "1" else codes "0"
literal_inline p float_text iso8601 (datetime t) = escape_string (iso8601 t)
literal_inline p float_text iso8601 (blob bytes) = codes "X'" ++ hex_digits bytes ++ codes "'"

-- How standard SQL reads the rest of a string literal: a doubled quote is one quote, a single one
-- ends the literal.
abbrev prefixed : ℕ → Option (Text × Text) → Option (Text × Text)
prefixed c none = none
prefixed c (some (s, rest)) = some (c ∷ s, rest)

-- `quoted` tells that a quote stands just before.
unfoldable pub read_rest : Bool → Text → Option (Text × Text)
read_rest true [] = some ([], [])
read_rest false [] = none
read_rest true (c ∷ s) =
    let inside = read_rest false s in if c == 39 then prefixed 39 inside else some ([], c ∷ s)
read_rest false (c ∷ s) =
    let quoted = read_rest true s in
    let inside = read_rest false s in if c == 39 then quoted else prefixed c inside

unfoldable pub read_string : Text → Option (Text × Text)
unfolding read_rest
read_string [] = none
read_string (c ∷ s) = if c == 39 then read_rest false s else none

-- What follows does not begin with a quote.
abbrev pub IsSeparate : Text → Type 0
IsSeparate [] = Unit {0}
IsSeparate (c ∷ s) = (c == 39) ≡ false

read_end : (rest : Text) → IsSeparate rest → read_rest true rest ≡ some ([], rest)
unfolding read_rest
read_end [] h = refl
read_end (c ∷ s) h = ground (arith, h)

read-escape_rest :
    (s rest : Text)
    → IsSeparate rest
    → read_rest false (escape_rest s ++ 39 ∷ rest) ≡ some (s, rest)
unfolding read_rest escape_rest
read-escape_rest [] rest h = read_end rest h
read-escape_rest (c ∷ s) rest h = elim (Bool-cases (c == 39)) [
  | inl e ↦ ground (arith, e, read-escape_rest s rest h)
  | inr e ↦ ground (arith, e, read-escape_rest s rest h)
]

-- Standard SQL reads the literal that escape_string writes as the same string, whatever the string
-- holds, and goes on behind it, if what follows does not begin with a quote.
pub read_string-escape_string :
    (s rest : Text) → IsSeparate rest → read_string (escape_string s ++ rest) ≡ some (s, rest)
unfolding read_string escape_string
read_string-escape_string s rest h =
    ap (read_rest false) (append_assoc (escape_rest s) (39 ∷ []) rest) ∙ read-escape_rest s rest h

-- A hexadecimal digit, and pairs of them.
unfoldable pub read_digit : ℕ → ℕ
read_digit c = if ltb c 58 then c - 48 else c - 55

unfoldable pub read_hex : Text → List ℕ
unfolding read_digit
read_hex (a ∷ b ∷ s) = (16 * read_digit a + read_digit b) ∷ read_hex s
read_hex _ = []

-- The digits that a blob is written with are read back as its bytes, if these are below 256.
pub read_hex-hex_digits :
    (bytes : List ℕ) → All (λ b. b < 256) bytes → read_hex (hex_digits bytes) ≡ bytes
unfolding read_hex hex_digits read_digit
read_hex-hex_digits [] h = refl
read_hex-hex_digits (b ∷ bytes) (h, hs) = ground (arith, h, read_hex-hex_digits bytes hs)

-- A string and a blob are read back from their literals: standard SQL reads the literal of a string,
-- whatever it holds, as the same string, and goes on behind it, if what follows does not begin with
-- a quote; the digits of a blob's literal are those of its bytes, if these are below 256.
pub read-literal_inline :
    (p : Platform) (float_text iso8601 : ℕ → Text) (s rest bytes : Text)
    → IsSeparate rest
    → All (λ b. b < 256) bytes
    → (read_string (literal_inline p float_text iso8601 (string s) ++ rest) ≡ some (s, rest))
      × (literal_inline p float_text iso8601 (blob bytes)
          ≡ codes "X'" ++ hex_digits bytes ++ codes "'")
      × (read_hex (hex_digits bytes) ≡ bytes)
unfolding literal_inline
read-literal_inline p float_text iso8601 s rest bytes h k =
    (read_string-escape_string s rest h, refl, read_hex-hex_digits bytes k)
