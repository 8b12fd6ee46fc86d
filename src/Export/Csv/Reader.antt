-- ===== src/Export/Csv/Reader.antt =====
-- How a reader of RFC 4180 reads one row of CSV, with its delimiter and its quote: independent of how
-- the exporter writes it.
use orm_glib.Base.{ℕ, List, [], ◌∷◌, Text, if◌then◌else◌, ◌==◌}
use orm_glib.Export.Csv.{is_break}

-- At the start of a field, in a bare field, in a quoted one, and behind a quote in a quoted one.
pub data Mode : Type 0 where
  start bare quoted closing : Mode

-- The fields that were read, and the text from the line ending on.
abbrev pub Fields : Type 0
Fields = List Text × Text

abbrev pub cons_first : ℕ → Fields → Fields
cons_first c ([], rest) = ((c ∷ []) ∷ [], rest)
cons_first c (f ∷ fs, rest) = ((c ∷ f) ∷ fs, rest)

abbrev pub next_field : Fields → Fields
next_field (fs, rest) = ([] ∷ fs, rest)

unfoldable pub read : ℕ → ℕ → Mode → Text → Fields
read d q m [] = ([] ∷ [], [])
read d q start (c ∷ s) =
    let field = read d q quoted s in
    let next = next_field (read d q start s) in
    let more = cons_first c (read d q bare s) in
    if c == q then field else if c == d then next else if is_break c then ([] ∷ [], c ∷ s) else more
read d q bare (c ∷ s) =
    let next = next_field (read d q start s) in
    let more = cons_first c (read d q bare s) in
    if c == d then next else if is_break c then ([] ∷ [], c ∷ s) else more
read d q quoted (c ∷ s) =
    let end = read d q closing s in
    let more = cons_first c (read d q quoted s) in if c == q then end else more
read d q closing (c ∷ s) =
    let doubled = cons_first c (read d q quoted s) in
    let next = next_field (read d q start s) in
    if c == q then doubled else if c == d then next else ([] ∷ [], c ∷ s)

unfoldable pub read_row : ℕ → ℕ → Text → Fields
unfolding read
read_row d q s = read d q start s
