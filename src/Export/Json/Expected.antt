-- ===== src/Export/Json/Expected.antt =====
-- The tokens of the JSON document that holds some rows, for each layout: what a line break or a space
-- adds is no token.
use orm_glib.Base.{ℕ, List, [], ◌∷◌, ◌++◌, Text, codes, if◌then◌else◌}
use orm_glib.Core.Value.{Value, null, integer, float, string, blob, boolean, datetime}
use orm_glib.Core.Platform.{Platform}
use orm_glib.Engine.Row.{Row}
use orm_glib.Export.Formats.{Formats, format_double}
use orm_glib.Export.Json.{
  JsonLayout, array_of_objects, array_of_arrays, JsonExporter, is_finite, wraps,
}
use orm_glib.Export.Json.Reader.{Token, symbol, word, quoted}

-- Elements with commas between them, between two brackets.
abbrev pub more_tokens : List (List Token) → List Token
more_tokens [] = []
more_tokens (us ∷ uss) = symbol 44 ∷ (us ++ more_tokens uss)

abbrev pub list_tokens : List (List Token) → List Token
list_tokens [] = []
list_tokens (us ∷ uss) = us ++ more_tokens uss

abbrev pub bracketed_tokens : ℕ → ℕ → List (List Token) → List Token
bracketed_tokens first last uss = symbol first ∷ (list_tokens uss ++ symbol last ∷ [])

abbrev pub name_tokens : List Text → List (List Token)
name_tokens [] = []
name_tokens (name ∷ names) = (quoted name ∷ []) ∷ name_tokens names

module _ (p : Platform) (f : Formats) where
  -- A number that JSON has no word for is null.
  abbrev pub value_token : Value → Token
  value_token null = word (codes "null")
  value_token (integer n) = word (p.int_to_text n)
  value_token (float d) = word (if is_finite p f d then format_double f d else codes "null")
  value_token (boolean b) = word (if b then codes "true" else codes "false")
  value_token (blob bytes) = quoted (f.base64 bytes)
  value_token (datetime t) = quoted (f.iso8601 t)
  value_token (string s) = quoted s

  abbrev pub member_tokens : Row → List (List Token)
  member_tokens [] = []
  member_tokens ((name, v) ∷ row) =
      (quoted name ∷ symbol 58 ∷ value_token v ∷ []) ∷ member_tokens row

  abbrev pub value_tokens : Row → List (List Token)
  value_tokens [] = []
  value_tokens ((_, v) ∷ row) = (value_token v ∷ []) ∷ value_tokens row

  abbrev pub row_tokens : JsonLayout → Row → List Token
  row_tokens array_of_objects row = bracketed_tokens 123 125 (member_tokens row)
  row_tokens array_of_arrays row = bracketed_tokens 91 93 (value_tokens row)

  abbrev pub rows_tokens : JsonLayout → List Row → List (List Token)
  rows_tokens layout [] = []
  rows_tokens layout (row ∷ rows) = row_tokens layout row ∷ rows_tokens layout rows

  -- An array of the rows, in an object beside the names of the columns if the layout asks for them.
  abbrev pub document_tokens : JsonExporter → List Text → List Row → List Token
  document_tokens x names rows =
      let array = bracketed_tokens 91 93 (rows_tokens x.layout rows) in
      if wraps x.layout x.include_columns
      then symbol 123
        ∷ quoted (codes "columns")
        ∷ symbol 58
        ∷ (bracketed_tokens 91 93 (name_tokens names)
            ++ (symbol 44 ∷ quoted (codes "rows") ∷ symbol 58 ∷ (array ++ symbol 125 ∷ [])))
      else array
