-- ===== src/Export/Exporter.antt =====
-- export/orm-exporter.c: a result written to a stream, through the hooks of a format.
pub mod Complete
mod Samples
use orm_glib.Base.{
  ℕ, zero, suc, ◌+◌, Bool, true, false, Option, none, some, List, [], ◌∷◌, ◌++◌, Text,
  if◌then◌else◌,
}
use orm_glib.Core.Error.{Error}
use orm_glib.Core.Platform.{Platform}
use orm_glib.Engine.Row.{Row}
use orm_glib.Export.Csv.{CsvExporter, write_begin, write_row}
use orm_glib.Export.Formats.{Formats}

-- OrmExporterClass: what the hooks write_begin, write_row and write_end write.
pub record Format : Type 0 where
  pub begin : List Text → Text
  pub row : Row → Text
  pub end : Text

-- The hooks of OrmCsvExporter.
unfoldable pub csv_format : Platform → Formats → CsvExporter → Format
csv_format p f x = record { begin = write_begin x; row = write_row p f x; end = [] }

-- What surrounds an export: whether the stream accepts a text after what it holds, whether it can be
-- closed, and whether the cancellable is found cancelled at each check.
pub record Surroundings : Type 0 where
  pub accepts : Text → Text → Bool
  pub closes : Bool
  pub is_cancelled : ℕ → Bool

-- The stream's text and the counter rows_written, and whether all went well so far.
pub record Progress : Type 0 where
  pub written : Text
  pub rows_written : ℕ
  pub is_ok : Bool

module _ (env : Surroundings) (f : Format) where
  -- g_output_stream_write_all.
  unfoldable pub emit : Text → Progress → Progress
  emit t p =
      if env.accepts p.written t
      then record p { written = p.written ++ t }
      else record p { is_ok = false }

  abbrev counted : Progress → Progress
  counted p = if p.is_ok then record p { rows_written = suc p.rows_written } else p

  -- The loop over the rows; `check` numbers the looks at the cancellable.
  unfoldable pub write_rows : ℕ → List Row → Progress → Progress
  unfolding emit
  write_rows check [] p = p
  write_rows check (row ∷ rows) p =
      let q = counted (emit (f.row row) p) in
      let rest = write_rows (suc check) rows q in
      if env.is_cancelled check then record p { is_ok = false } else if q.is_ok then rest else q

  -- Behind the loop: the error that ended the rows, the end and the stream.
  unfoldable pub write_tail : Option Error → Progress → Progress
  unfolding emit
  write_tail (some e) p = record p { is_ok = false }
  write_tail none p = let q = emit f.end p in if q.is_ok then record q { is_ok = env.closes } else q

  -- orm_exporter_export_result, for a stream that holds a text: the columns of the result, its rows,
  -- and the error that orm_result_get_error reports at their end.
  unfoldable pub export_result : Text → List Text → List Row → Option Error → Progress
  unfolding write_rows write_tail emit
  export_result text names rows error =
      let p : Progress = record { written = text; rows_written = 0; is_ok = true } in
      let begun = emit (f.begin names) p in
      let looped = write_rows 1 rows begun in
      if env.is_cancelled 0
      then record p { is_ok = false }
      else if begun.is_ok
      then (if looped.is_ok then write_tail error looped else looped)
      else begun

  abbrev names_of : Row → List Text
  names_of [] = []
  names_of ((name, _) ∷ row) = name ∷ names_of row

  -- orm_exporter_row_columns.
  unfoldable pub row_columns : List Row → List Text
  row_columns [] = []
  row_columns (row ∷ _) = names_of row

  -- orm_exporter_export_rows: the names come from the first row.
  unfoldable pub export_rows : Text → List Row → Progress
  unfolding export_result row_columns
  export_rows text rows = export_result text (row_columns rows) rows none
