-- ===== src/Export/Formats.antt =====
-- What the exporters take from GLib for the text of a value, and export/orm-exporter.c's text of a
-- double.
use orm_glib.Base.{ℕ, Bool, Text, if◌then◌else◌}

-- `formatd n d` is g_ascii_formatd with "%.<n>g", `reads_as` whether g_ascii_strtod gives the double
-- back; the others are g_base64_encode, g_date_time_format_iso8601, G_MAXDOUBLE and -G_MAXDOUBLE.
pub record Formats : Type 0 where
  pub formatd : ℕ → ℕ → Text
  pub reads_as : Text → ℕ → Bool
  pub base64 : Text → Text
  pub iso8601 : ℕ → Text
  pub max_double : ℕ
  pub min_double : ℕ

-- orm_exporter_format_double: the first of three precisions that is read back as the same double.
unfoldable pub format_double : Formats → ℕ → Text
format_double f d =
    if f.reads_as (f.formatd 15 d) d
    then f.formatd 15 d
    else if f.reads_as (f.formatd 16 d) d
    then f.formatd 16 d
    else f.formatd 17 d
