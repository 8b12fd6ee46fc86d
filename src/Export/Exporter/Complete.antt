-- ===== src/Export/Exporter/Complete.antt =====
-- An export that reports success is complete.
use orm_glib.Base.{
  ℕ, zero, suc, ◌+◌, ◌≡◌, true, false, Option, none, some, List, [], ◌∷◌, ◌++◌, append-nil,
  append_assoc, length, Text, arith,
}
use orm_glib.Core.Error.{Error}
use orm_glib.Engine.Row.{Row}
use orm_glib.Export.Exporter.{
  Format, Surroundings, Progress, emit, write_rows, write_tail, export_result,
}

-- The rows as the format writes them.
abbrev pub rows_text : Format → List Row → Text
rows_text f [] = []
rows_text f (row ∷ rows) = f.row row ++ rows_text f rows

-- The next `n` checks, from one on, find nothing cancelled.
abbrev pub NotCancelled : Surroundings → ℕ → ℕ → Type 0
NotCancelled env check zero = Unit
NotCancelled env check (suc n) = (env.is_cancelled check ≡ false) × NotCancelled env (suc check) n

module _ (env : Surroundings) (f : Format) where
  write_rows_complete :
      (check : ℕ) (rows : List Row) (p : Progress)
      → p.is_ok ≡ true
      → (write_rows env f check rows p).is_ok ≡ true
      → ((write_rows env f check rows p).written ≡ p.written ++ rows_text f rows)
        × ((write_rows env f check rows p).rows_written ≡ p.rows_written + length rows)
        × NotCancelled env check (length rows)
  unfolding write_rows emit
  write_rows_complete check [] p k h = ground (arith, append-nil p.written)
  write_rows_complete check (row ∷ rows) p k h = ground (
    arith,
    append_assoc p.written (f.row row) (rows_text f rows),
    write_rows_complete (suc check) rows (record {
      written = p.written ++ f.row row;
      rows_written = suc p.rows_written;
      is_ok = p.is_ok;
    }),
  )

  -- An export that reports success has met no error in the result, has put the beginning, every row
  -- and the end behind what the stream held, has counted every row, and has found nothing cancelled
  -- at its first check, before anything is written, and at the check before each row; so a result
  -- that broke half-way, a stream that refused a write and a cancellation that a check finds are all
  -- reported as failures.
  pub export_result_complete :
      (text : Text) (names : List Text) (rows : List Row) (error : Option Error)
      → (export_result env f text names rows error).is_ok ≡ true
      → (error ≡ none)
        × ((export_result env f text names rows error).written
            ≡ text ++ (f.begin names ++ (rows_text f rows ++ f.end)))
        × ((export_result env f text names rows error).rows_written ≡ length rows)
        × NotCancelled env 0 (suc (length rows))
  unfolding export_result write_tail emit
  export_result_complete text names rows (some e) h = ground arith
  export_result_complete text names rows none h = ground (
    arith,
    write_rows_complete 1 rows
        (record { written = text ++ f.begin names; rows_written = 0; is_ok = true }),
    append_assoc text (f.begin names) (rows_text f rows),
    append_assoc (text ++ f.begin names) (rows_text f rows) f.end,
    append_assoc text (f.begin names) (rows_text f rows ++ f.end),
  )
