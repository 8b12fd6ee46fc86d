-- ===== src/Export/Csv/RoundTrip.antt =====
-- A row that the exporter writes is read back as the texts of its values.
use orm_glib.Base.{
  ℕ, zero, ◌≡◌, refl, ap, ◌⊎◌, inl, inr, Bool, true, false, ◌||◌, List, [], ◌∷◌, ◌++◌, append_assoc,
  Text, is_prefix, if◌then◌else◌, ◌==◌, Bool-cases, not_both, arith,
}
use orm_glib.Core.Value.{Value, null}
use orm_glib.Core.Platform.{Platform}
use orm_glib.Engine.Row.{Row}
use orm_glib.Export.Csv.{
  CsvExporter, is_break, contains, has_break, needs_quotes, double_quotes, append_field,
  append_value, value_text, join, row_fields, write_row,
}
use orm_glib.Export.Formats.{Formats}
use orm_glib.Export.Csv.Reader.{
  start, bare, quoted, closing, Fields, cons_first, next_field, read, read_row,
}

-- The exporter writes one delimiter and one quote, neither of which breaks a line.
pub record Fits (x : CsvExporter) (d q : ℕ) : Type 0 where
  pub delimiter : x.delimiter ≡ d ∷ []
  pub quote_char : x.quote_char ≡ q ∷ []
  pub distinct : (d == q) ≡ false
  pub d_unbroken : is_break d ≡ false
  pub q_unbroken : is_break q ≡ false

-- What stands behind a field: a delimiter and another field, or a line ending.
abbrev pub IsBreak : Text → Type 0
IsBreak [] = ⊥
IsBreak (c ∷ s) = is_break c ≡ true

abbrev IsTail : ℕ → Text → Type 0
IsTail d [] = ⊥
IsTail d (c ∷ s) = ((c == d) || is_break c) ≡ true

abbrev after : ℕ → ℕ → Text → Fields
after d q [] = ([] ∷ [], [])
after d q (c ∷ s) = if c == d then next_field (read d q start s) else ([] ∷ [], c ∷ s)

abbrev prepend : Text → Fields → Fields
prepend [] p = p
prepend (c ∷ f) p = cons_first c (prepend f p)

append-IsBreak : (a b : Text) → IsBreak a → IsBreak (a ++ b)
append-IsBreak [] b h = absurd h
append-IsBreak (c ∷ a) b h = h

module _ (x : CsvExporter) (d q : ℕ) (fits : Fits x d q) where
  -- A field that is bare holds no delimiter, no quote and no line break.
  IsBare : Text → Type 0
  IsBare [] = Unit
  IsBare (c ∷ f) = ((c == d) ≡ false) × ((c == q) ≡ false) × (is_break c ≡ false) × IsBare f

  bare_tail : (t : Text) → IsTail d t → read d q bare t ≡ after d q t
  unfolding read
  bare_tail [] h = absurd h
  bare_tail (c ∷ t) h = ground (arith, fits.distinct)

  read_bare :
      (f t : Text) → IsBare f → IsTail d t → read d q bare (f ++ t) ≡ prepend f (after d q t)
  unfolding read IsBare
  read_bare [] t b h = bare_tail t h
  read_bare (c ∷ f) t b h = ground (arith, b, read_bare f t b.3 h)

  start_bare :
      (f t : Text) → IsBare f → IsTail d t → read d q start (f ++ t) ≡ prepend f (after d q t)
  unfolding read IsBare
  start_bare [] [] b h = absurd h
  start_bare [] (c ∷ t) b h = ground (arith, fits.distinct, fits.q_unbroken)
  start_bare (c ∷ f) t b h = ground (arith, b, read_bare f t b.3 h)

  closing_tail : (t : Text) → IsTail d t → read d q closing t ≡ after d q t
  unfolding read
  closing_tail [] h = absurd h
  closing_tail (c ∷ t) h = ground (arith, fits.distinct, fits.q_unbroken)

  read_quoted :
      (f t : Text)
      → IsTail d t
      → read d q quoted (double_quotes (q ∷ []) zero f ++ q ∷ t) ≡ prepend f (after d q t)
  unfolding read double_quotes is_prefix
  read_quoted [] t h = ground (arith, closing_tail t h)
  read_quoted (c ∷ f) t h = elim (Bool-cases (c == q)) [
    | inl e ↦ ground (arith, e, read_quoted f t h)
    | inr e ↦ ground (arith, e, read_quoted f t h)
  ]

  contains-IsBare :
      (f : Text)
      → contains f (d ∷ []) ≡ false
      → contains f (q ∷ []) ≡ false
      → has_break f ≡ false
      → IsBare f
  unfolding contains is_prefix has_break IsBare
  contains-IsBare [] h k l = tt
  contains-IsBare (c ∷ f) h k l = ground (arith, contains-IsBare f)

  needs_quotes-IsBare : (f : Text) → needs_quotes x f ≡ false → IsBare f
  unfolding needs_quotes
  needs_quotes-IsBare f h = ground (arith, contains-IsBare f, fits.delimiter, fits.quote_char)

  read_field :
      (f t : Text) (quote : Bool)
      → (quote ≡ false → IsBare f)
      → IsTail d t
      → read d q start (append_field x f quote ++ t) ≡ prepend f (after d q t)
  unfolding append_field read
  read_field f t true b h =
      rw fits.quote_char
        (ground (arith, read_quoted f t h, append_assoc (double_quotes (q ∷ []) zero f) (q ∷ []) t))
  read_field f t false b h = start_bare f t (b refl) h

  -- The text that a value is written as, and that a reader gets.
  abbrev pub text_of : Platform → Formats → Value → Text
  text_of p f null = x.null_string
  text_of p f v = value_text p f v

  abbrev pub texts : Platform → Formats → Row → List Text
  texts p f [] = []
  texts p f ((_, v) ∷ row) = text_of p f v ∷ texts p f row

  -- The null string, which is written as it is, needs no quotes, or everything is quoted.
  abbrev pub IsPlainNull : Type 0
  IsPlainNull = (x.force_quotes ≡ true) ⊎ (needs_quotes x x.null_string ≡ false)

  read_text :
      (f t : Text)
      → IsTail d t
      → read d q start (append_field x f (needs_quotes x f) ++ t) ≡ prepend f (after d q t)
  read_text f t h = read_field f t (needs_quotes x f) (needs_quotes-IsBare f) h

  read_value :
      (p : Platform) (f : Formats) (v : Value) (t : Text)
      → IsPlainNull
      → IsTail d t
      → read d q start (append_value p f x v ++ t) ≡ prepend (text_of p f v) (after d q t)
  unfolding append_value
  read_value p f null t (inl forced) h =
      read_field x.null_string t x.force_quotes (λ b. absurd (not_both x.force_quotes forced b)) h
  read_value p f null t (inr plain) h =
      read_field x.null_string t x.force_quotes (λ _. needs_quotes-IsBare x.null_string plain) h
  read_value p f v t known h = read_text (value_text p f v) t h

  prepend-nil : (f : Text) (fs : List Text) (t : Text) → prepend f ([] ∷ fs, t) ≡ (f ∷ fs, t)
  prepend-nil [] fs t = refl
  prepend-nil (c ∷ f) fs t = ap (cons_first c) (prepend-nil f fs t)

  join-IsTail :
      (p : Platform) (f : Formats) (row : Row) (t : Text)
      → IsBreak t
      → IsTail d (join x (row_fields p f x row) ++ t)
  unfolding join
  join-IsTail p f [] [] b = absurd b
  join-IsTail p f [] (c ∷ t) b = ground arith
  join-IsTail p f (_ ∷ row) t b = rw fits.delimiter (ground arith)

  after-join :
      (p : Platform) (f : Formats) (row : Row) (t : Text)
      → IsPlainNull
      → IsBreak t
      → after d q (join x (row_fields p f x row) ++ t) ≡ ([] ∷ texts p f row, t)
  unfolding join
  after-join p f [] [] known b = absurd b
  after-join p f [] (c ∷ t) known b = ground (arith, fits.d_unbroken)
  after-join p f ((_, v) ∷ row) t known b =
      let more = join x (row_fields p f x row) in
      ground (
        arith,
        fits.delimiter,
        append_assoc (append_value p f x v) more t,
        read_value p f v (more ++ t) known (join-IsTail p f row t b),
        after-join p f row t known b,
        prepend-nil (text_of p f v) (texts p f row) t,
      )

  -- An exporter with one delimiter and one quote, which differ and break no line, whose null string
  -- is quoted or needs no quotes, and whose line ending begins with CR or LF, writes each row of at least one column so that a reader of
  -- RFC 4180 gets the text of each value, whatever delimiters, quotes and line breaks are in it, and
  -- stops at the line ending that was written.
  pub read_row-write_row :
      (p : Platform) (f : Formats) (name : Text) (v : Value) (row : Row) (rest : Text)
      → IsPlainNull
      → IsBreak x.line_ending
      → read_row d q (write_row p f x ((name, v) ∷ row) ++ rest)
        ≡ (texts p f ((name, v) ∷ row), x.line_ending ++ rest)
  unfolding read_row write_row
  read_row-write_row p f name v row rest known b =
      let more = join x (row_fields p f x row) in
      let end = x.line_ending ++ rest in
      let field = append_value p f x v in
      let unbroken = append-IsBreak x.line_ending rest b in
      ground (
        arith,
        append_assoc (field ++ more) x.line_ending rest,
        append_assoc field more end,
        read_value p f v (more ++ end) known (join-IsTail p f row end unbroken),
        after-join p f row end known unbroken,
        prepend-nil (text_of p f v) (texts p f row) end,
      )
