-- ===== src/Export/Json.antt =====
-- export/orm-json-exporter.c: the text of a document. A GString that is appended to is the text that
-- is appended.
pub mod Expected
pub mod Lexing
pub mod Reader
pub mod Rows
pub mod RoundTrip
mod Samples
use orm_glib.Base.{
  ℕ, zero, suc, ◌+◌, ◌*◌, ◌/◌, ◌%◌, Bool, true, false, not, ◌&&◌, List, [], ◌∷◌, ◌++◌, Text, codes,
  if◌then◌else◌, ◌==◌, ltb,
}
use orm_glib.Core.Value.{Value, null, integer, float, string, blob, boolean, datetime}
use orm_glib.Core.Platform.{Platform}
use orm_glib.Engine.Row.{Row}
use orm_glib.Export.Formats.{Formats, format_double}

-- OrmJsonLayout.
pub data JsonLayout : Type 0 where
  array_of_objects array_of_arrays : JsonLayout

-- OrmJsonExporter. The property `indent` is at most 32, so no product with a level overflows.
pub record JsonExporter : Type 0 where
  pub layout : JsonLayout
  pub pretty : Bool
  pub indent : ℕ
  pub include_columns : Bool
  pub wrapped : Bool
  pub any_rows : Bool

unfoldable pub json_exporter_new : JsonExporter
json_exporter_new = record {
  layout = array_of_objects;
  pretty = false;
  indent = 2;
  include_columns = true;
  wrapped = false;
  any_rows = false;
}

abbrev pub spaces : ℕ → Text
spaces zero = []
spaces (suc n) = 32 ∷ spaces n

unfoldable pub newline : JsonExporter → ℕ → Text
newline x level = if x.pretty then 10 ∷ spaces (level * x.indent) else []

unfoldable pub space : JsonExporter → Text
space x = if x.pretty then 32 ∷ [] else []

unfoldable pub rows_level : JsonExporter → ℕ
rows_level x = if x.wrapped then 1 else 0

-- A digit of "%04x": '0' is 48, 'a' is 97.
abbrev pub hex_digit : ℕ → ℕ
hex_digit n = if ltb n 10 then 48 + n else 87 + n

-- The switch of append_string; '\' is 92 and 'u' is 117.
unfoldable pub escape_char : ℕ → Text
escape_char c =
    if c == 34
    then 92 ∷ 34 ∷ []
    else if c == 92
    then 92 ∷ 92 ∷ []
    else if c == 8
    then 92 ∷ 98 ∷ []
    else if c == 12
    then 92 ∷ 102 ∷ []
    else if c == 10
    then 92 ∷ 110 ∷ []
    else if c == 13
    then 92 ∷ 114 ∷ []
    else if c == 9
    then 92 ∷ 116 ∷ []
    else if ltb c 32
    then 92 ∷ 117 ∷ 48 ∷ 48 ∷ hex_digit (c / 16) ∷ hex_digit (c % 16) ∷ []
    else c ∷ []

unfoldable pub escape_chars : Text → Text
unfolding escape_char
escape_chars [] = []
escape_chars (c ∷ s) = escape_char c ++ escape_chars s

unfoldable pub append_string : Text → Text
unfolding escape_chars
append_string s = 34 ∷ (escape_chars s ++ 34 ∷ [])

unfoldable pub is_finite : Platform → Formats → ℕ → Bool
is_finite p f d =
    not (p.is_nan d) && not (p.float_ltb f.max_double d) && not (p.float_ltb d f.min_double)

unfoldable pub json_value : Platform → Formats → Value → Text
unfolding append_string is_finite format_double
json_value p f null = codes "null"
json_value p f (integer n) = p.int_to_text n
json_value p f (float d) = if is_finite p f d then format_double f d else codes "null"
json_value p f (boolean b) = if b then codes "true" else codes "false"
json_value p f (blob bytes) = append_string (f.base64 bytes)
json_value p f (datetime t) = append_string (f.iso8601 t)
json_value p f (string s) = append_string s

-- The loops over the columns: a comma before every element but the first one, and each on its own
-- line.
unfoldable pub elements : JsonExporter → ℕ → Bool → List Text → Text
unfolding newline
elements x level first [] = []
elements x level first (t ∷ ts) =
    (if first then [] else 44 ∷ []) ++ (newline x level ++ (t ++ elements x level false ts))

-- The line of the closing bracket, if there was an element.
abbrev pub last_line : JsonExporter → ℕ → List Text → Text
last_line x level [] = []
last_line x level (_ ∷ _) = newline x level

-- The elements between two brackets that stand at a level.
abbrev pub bracketed : JsonExporter → ℕ → ℕ → ℕ → List Text → Text
bracketed x level first last ts =
    first ∷ (elements x (suc level) true ts ++ (last_line x level ts ++ last ∷ []))

abbrev pub strings : List Text → List Text
strings [] = []
strings (name ∷ names) = append_string name ∷ strings names

-- "columns": and "rows":
abbrev pub columns_key : Text
columns_key = append_string (codes "columns") ++ 58 ∷ []

abbrev pub rows_key : Text
rows_key = append_string (codes "rows") ++ 58 ∷ []

abbrev pub wraps : JsonLayout → Bool → Bool
wraps array_of_objects include_columns = false
wraps array_of_arrays include_columns = include_columns

-- orm_json_exporter_write_begin.
unfoldable pub json_begin : JsonExporter → List Text → JsonExporter × Text
unfolding newline space elements append_string
json_begin x names =
    let w = wraps x.layout x.include_columns in
    (
      record x { wrapped = w; any_rows = false },
      if w
          then 123
            ∷ (newline x 1
                ++ (columns_key
                    ++ (space x
                        ++ (bracketed x 1 91 93 (strings names)
                            ++ (44 ∷ (newline x 1 ++ (rows_key ++ (space x ++ 91 ∷ []))))))))
          else 91 ∷ [],
    )

-- orm_json_exporter_write_end.
unfoldable pub json_end : JsonExporter → Text
unfolding newline rows_level
json_end x =
    (if x.any_rows then newline x (rows_level x) else [])
    ++ (93 ∷ (if x.wrapped then newline x 0 ++ 125 ∷ [] else []))

module _ (p : Platform) (f : Formats) where
  abbrev pub members : JsonExporter → Row → List Text
  members x [] = []
  members x ((name, v) ∷ row) =
      (append_string name ++ (58 ∷ (space x ++ json_value p f v))) ∷ members x row

  abbrev pub values : Row → List Text
  values [] = []
  values ((name, v) ∷ row) = json_value p f v ∷ values row

  abbrev pub row_text : JsonExporter → JsonLayout → Row → Text
  row_text x array_of_objects row = bracketed x (suc (rows_level x)) 123 125 (members x row)
  row_text x array_of_arrays row = bracketed x (suc (rows_level x)) 91 93 (values row)

  -- orm_json_exporter_write_row.
  unfoldable pub json_row : JsonExporter → Row → JsonExporter × Text
  unfolding newline space elements append_string rows_level json_value
  json_row x row = (
    record x { any_rows = true },
    (if x.any_rows then 44 ∷ [] else [])
        ++ (newline x (suc (rows_level x)) ++ row_text x x.layout row),
  )

  -- The rows of an export, one after the other.
  unfoldable pub json_rows : JsonExporter → List Row → JsonExporter × Text
  unfolding json_row
  json_rows x [] = (x, [])
  json_rows x (row ∷ rows) =
      let (y, t) = json_row x row in let (z, ts) = json_rows y rows in (z, t ++ ts)

  -- What an export writes whose stream accepts everything.
  unfoldable pub document : JsonExporter → List Text → List Row → Text
  unfolding json_begin json_rows json_end
  document x names rows =
      let (begun, head) = json_begin x names in
      let (ended, body) = json_rows begun rows in head ++ (body ++ json_end ended)
