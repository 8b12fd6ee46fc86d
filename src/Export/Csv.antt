-- ===== src/Export/Csv.antt =====
-- export/orm-csv-exporter.c: the text of a header and of a row. A GString that is appended to is the
-- text that is appended.
pub mod Reader
pub mod RoundTrip
pub mod Samples
use orm_glib.Base.{
  ℕ, zero, suc, ◌-◌, Bool, true, false, ◌||◌, ◌&&◌, not, Option, none, some, List, [], ◌∷◌, ◌++◌,
  length, Text, codes, is_prefix, if◌then◌else◌, ◌==◌,
}
use orm_glib.Core.Value.{Value, null, integer, float, string, blob, boolean, datetime}
use orm_glib.Core.Platform.{Platform}
use orm_glib.Engine.Row.{Row}
use orm_glib.Export.Formats.{Formats, format_double}

-- OrmCsvExporter.
pub record CsvExporter : Type 0 where
  pub delimiter : Text
  pub quote_char : Text
  pub null_string : Text
  pub line_ending : Text
  pub include_header : Bool
  pub force_quotes : Bool

unfoldable pub csv_exporter_new : CsvExporter
csv_exporter_new = record {
  delimiter = codes ",";
  quote_char = 34 ∷ [];
  null_string = [];
  line_ending = 10 ∷ [];
  include_header = true;
  force_quotes = false;
}

-- strstr (s, p) != NULL.
unfoldable pub contains : Text → Text → Bool
unfolding is_prefix
contains [] p = is_prefix p []
contains (c ∷ s) p = is_prefix p (c ∷ s) || contains s p

abbrev pub is_break : ℕ → Bool
is_break c = c == 13 || c == 10

-- strpbrk (s, "\r\n") != NULL.
unfoldable pub has_break : Text → Bool
has_break [] = false
has_break (c ∷ s) = is_break c || has_break s

abbrev pub is_empty : Text → Bool
is_empty [] = true
is_empty (_ ∷ _) = false

unfoldable pub needs_quotes : CsvExporter → Text → Bool
unfolding contains has_break
needs_quotes x field =
    x.force_quotes
    || (not (is_empty x.delimiter) && contains field x.delimiter)
    || (not (is_empty x.quote_char) && contains field x.quote_char)
    || has_break field

-- The loop of append_field: every quote is written twice. `skip` counts the rest of a quote that was
-- found.
unfoldable pub double_quotes : Text → ℕ → Text → Text
unfolding is_prefix
double_quotes q skip [] = []
double_quotes q (suc skip) (c ∷ s) = double_quotes q skip s
double_quotes q zero (c ∷ s) =
    let found = q ++ (q ++ double_quotes q (length q - 1) s) in
    let other = c ∷ double_quotes q zero s in if is_prefix q (c ∷ s) then found else other

unfoldable pub append_field : CsvExporter → Text → Bool → Text
unfolding double_quotes
append_field x field quote =
    if not quote || is_empty x.quote_char
    then field
    else x.quote_char ++ (double_quotes x.quote_char zero field ++ x.quote_char)

-- The text of a value in the switch of append_value.
unfoldable pub value_text : Platform → Formats → Value → Text
unfolding format_double
value_text p f null = []
value_text p f (integer n) = p.int_to_text n
value_text p f (float d) = format_double f d
value_text p f (string s) = s
value_text p f (boolean b) = if b then codes "true" else codes "false"
value_text p f (blob bytes) = f.base64 bytes
value_text p f (datetime t) = f.iso8601 t

unfoldable pub append_value : Platform → Formats → CsvExporter → Value → Text
unfolding append_field value_text needs_quotes
append_value p f x null = append_field x x.null_string x.force_quotes
append_value p f x v = append_field x (value_text p f v) (needs_quotes x (value_text p f v))

-- The loops over the columns, with a delimiter before every column but the first one.
unfoldable pub join : CsvExporter → List Text → Text
join x [] = []
join x (field ∷ fields) = x.delimiter ++ (field ++ join x fields)

abbrev pub join_row : CsvExporter → List Text → Text
join_row x [] = []
join_row x (field ∷ fields) = field ++ join x fields

abbrev header_fields : CsvExporter → List Text → List Text
header_fields x [] = []
header_fields x (name ∷ names) = append_field x name (needs_quotes x name) ∷ header_fields x names

-- orm_csv_exporter_write_begin: what it writes.
unfoldable pub write_begin : CsvExporter → List Text → Text
unfolding join append_field needs_quotes
write_begin x [] = []
write_begin x (name ∷ names) =
    if x.include_header then join_row x (header_fields x (name ∷ names)) ++ x.line_ending else []

abbrev pub row_fields : Platform → Formats → CsvExporter → Row → List Text
row_fields p f x [] = []
row_fields p f x ((_, v) ∷ row) = append_value p f x v ∷ row_fields p f x row

-- orm_csv_exporter_write_row: what it writes.
unfoldable pub write_row : Platform → Formats → CsvExporter → Row → Text
unfolding join append_value
write_row p f x row = join_row x (row_fields p f x row) ++ x.line_ending
