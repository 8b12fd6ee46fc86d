-- ===== src/Export/Csv/Samples.antt =====
-- A row whose texts hold a delimiter, a quote and a line break.
use orm_glib.Base.{◌≡◌, refl, [], ◌∷◌, ◌++◌, codes, inr, true, false}
use orm_glib.Core.Value.{null, string}
use orm_glib.Core.Value.Samples.{toy_platform}
use orm_glib.Engine.Row.{Row}
use orm_glib.Export.Formats.{Formats}
use orm_glib.Export.Csv.{csv_exporter_new, needs_quotes, write_row, write_begin}
use orm_glib.Export.Csv.Reader.{read_row}
use orm_glib.Export.Csv.RoundTrip.{Fits, texts, read_row-write_row}

abbrev pub formats : Formats
formats = record {
  formatd = λ _ _. codes "0.5";
  reads_as = λ _ _. true;
  base64 = λ s. s;
  iso8601 = λ _. codes "now";
  max_double = 1000;
  min_double = 0;
}

comma_quote : Fits csv_exporter_new 44 34
unfolding csv_exporter_new
comma_quote = record {
  delimiter = refl;
  quote_char = refl;
  distinct = refl;
  d_unbroken = refl;
  q_unbroken = refl;
}

-- `a,"b"` and a line break, NULL, and 7.
abbrev pub hard : Row
hard =
    (codes "a", string (97 ∷ 44 ∷ 34 ∷ 98 ∷ 34 ∷ 10 ∷ []))
    ∷ (codes "b", null)
    ∷ (codes "c", string (codes "x"))
    ∷ []

hard_text :
    write_row toy_platform formats csv_exporter_new hard
    ≡ 34 ∷ 97 ∷ 44 ∷ 34 ∷ 34 ∷ 98 ∷ 34 ∷ 34 ∷ 10 ∷ 34 ∷ 44 ∷ 44 ∷ 120 ∷ 10 ∷ []
unfolding write_row csv_exporter_new
hard_text = refl

header_text :
    write_begin csv_exporter_new (codes "a" ∷ codes "b,c" ∷ [])
    ≡ codes "a," ++ 34 ∷ codes "b,c" ++ 34 ∷ 10 ∷ []
unfolding write_begin csv_exporter_new
header_text = refl

null_unquoted : needs_quotes csv_exporter_new csv_exporter_new.null_string ≡ false
unfolding needs_quotes csv_exporter_new
null_unquoted = refl

read_row-write_row_example :
    read_row 44 34 (write_row toy_platform formats csv_exporter_new hard ++ codes "more") ≡ (
      texts csv_exporter_new 44 34 comma_quote toy_platform formats hard,
      csv_exporter_new.line_ending ++ codes "more",
    )
unfolding csv_exporter_new
read_row-write_row_example =
    read_row-write_row csv_exporter_new 44 34 comma_quote toy_platform formats (codes "a")
      (string (97 ∷ 44 ∷ 34 ∷ 98 ∷ 34 ∷ 10 ∷ []))
      ((codes "b", null) ∷ (codes "c", string (codes "x")) ∷ []) (codes "more") (inr null_unquoted)
      refl
