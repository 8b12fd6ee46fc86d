-- ===== src/Export/Json/Rows.antt =====
-- How the reader goes through the rows of a document.
use orm_glib.Base.{
  ℕ, suc, ◌≡◌, refl, Bool, true, false, List, [], ◌∷◌, ◌++◌, Text, codes, if◌then◌else◌, Bool-cases,
  arith, inl, inr,
}
use orm_glib.Base.Int.{ℤ}
use orm_glib.Core.Value.{Value, null, integer, float, string, blob, boolean, datetime}
use orm_glib.Core.Platform.{Platform}
use orm_glib.Engine.Row.{Row}
use orm_glib.Export.Formats.{Formats, format_double}
use orm_glib.Export.Json.{
  JsonLayout, array_of_objects, array_of_arrays, JsonExporter, newline, space, append_string,
  is_finite, json_value, elements, last_line, bracketed, strings, members, values, row_text,
  rows_level, json_rows,
}
use orm_glib.Export.Json.Reader.{Token, symbol, quoted}
use orm_glib.Export.Json.Expected.{
  more_tokens, list_tokens, bracketed_tokens, name_tokens, value_token, member_tokens, value_tokens,
  row_tokens, rows_tokens,
}
use orm_glib.Export.Json.Lexing.{
  Reads, append-Reads, symbol-Reads, newline-Reads, space-Reads, string-Reads, word-Reads, IsWord,
  from_exact, to_settled, nothing-Reads,
}

-- Each text is read as the tokens at its place.
abbrev pub ReadAll : List Text → List (List Token) → Type 0
ReadAll [] [] = Unit {0}
ReadAll (t ∷ ts) (us ∷ uss) = Reads true false t us × ReadAll ts uss
ReadAll _ _ = ⊥

more-Reads :
    (x : JsonExporter) (level : ℕ) (ts : List Text) (uss : List (List Token))
    → ReadAll ts uss
    → Reads false false (elements x level false ts) (more_tokens uss)
unfolding elements
more-Reads x level [] [] h = nothing-Reads false
more-Reads x level [] (us ∷ uss) h = elim h [ ]
more-Reads x level (t ∷ ts) [] h = elim h [ ]
more-Reads x level (t ∷ ts) (us ∷ uss) (h, hs) =
    append-Reads false true false (44 ∷ []) _ (symbol 44 ∷ []) _ (symbol-Reads 44 refl refl) (
      append-Reads true true false (newline x level) _ [] _ (newline-Reads true x level)
        (append-Reads true false false t _ us _ h (more-Reads x level ts uss hs)))

elements-Reads :
    (x : JsonExporter) (level : ℕ) (ts : List Text) (uss : List (List Token))
    → ReadAll ts uss
    → Reads true false (elements x level true ts) (list_tokens uss)
unfolding elements
elements-Reads x level [] [] h = to_settled true [] [] (nothing-Reads true)
elements-Reads x level [] (us ∷ uss) h = elim h [ ]
elements-Reads x level (t ∷ ts) [] h = elim h [ ]
elements-Reads x level (t ∷ ts) (us ∷ uss) (h, hs) =
    append-Reads true true false (newline x level) _ [] _ (newline-Reads true x level)
      (append-Reads true false false t _ us _ h (more-Reads x level ts uss hs))

last_line-Reads :
    (x : JsonExporter) (level : ℕ) (ts : List Text) → Reads false false (last_line x level ts) []
last_line-Reads x level [] = nothing-Reads false
last_line-Reads x level (_ ∷ _) = newline-Reads false x level

-- Brackets that the reader takes for symbols.
pub bracketed-Reads :
    (x : JsonExporter) (level first last : ℕ) (ts : List Text) (uss : List (List Token))
    → Reads false true (first ∷ []) (symbol first ∷ [])
    → Reads false true (last ∷ []) (symbol last ∷ [])
    → ReadAll ts uss
    → Reads true true (bracketed x level first last ts) (bracketed_tokens first last uss)
bracketed-Reads x level first last ts uss opens closes h =
    append-Reads true true true (first ∷ []) _ (symbol first ∷ []) _
      (from_exact true (first ∷ []) (symbol first ∷ []) opens)
      (append-Reads true false true (elements x (suc level) true ts) _ (list_tokens uss) _
        (elements-Reads x (suc level) ts uss h)
        (append-Reads false false true (last_line x level ts) _ [] _ (last_line-Reads x level ts)
          closes))

pub strings-ReadAll : (names : List Text) → ReadAll (strings names) (name_tokens names)
strings-ReadAll [] = tt
strings-ReadAll (name ∷ names) = (
  to_settled true (append_string name) (quoted name ∷ []) (string-Reads name),
  strings-ReadAll names,
)

-- Numbers are printed as words: of digits, signs, points and letters.
pub record PrintsWords (p : Platform) (f : Formats) : Type 0 where
  pub int_to_text : (n : ℤ) → IsWord (p.int_to_text n)
  pub formatd : (n d : ℕ) → is_finite p f d ≡ true → IsWord (f.formatd n d)

behind_comma-Reads :
    (b : Bool) (t : Text) (us : List Token)
    → b ≡ true
    → Reads true true t us
    → Reads true true ((if b then 44 ∷ [] else []) ++ t) (symbol 44 ∷ us)
behind_comma-Reads true t us e h =
    append-Reads true true true (44 ∷ []) t (symbol 44 ∷ []) us
      (from_exact true (44 ∷ []) (symbol 44 ∷ []) (symbol-Reads 44 refl refl)) h
behind_comma-Reads false t us e h = absurd (ground (arith, e))

alone-Reads :
    (b : Bool) (t : Text) (us : List Token)
    → b ≡ false
    → Reads true true t us
    → Reads true true ((if b then 44 ∷ [] else []) ++ t) us
alone-Reads true t us e h = absurd (ground (arith, e))
alone-Reads false t us e h = h

module _ (p : Platform) (f : Formats) (prints : PrintsWords p f) where
  format_double-IsWord : (d : ℕ) → is_finite p f d ≡ true → IsWord (format_double f d)
  unfolding format_double
  format_double-IsWord d h = elim (Bool-cases (f.reads_as (f.formatd 15 d) d)) [
    | inl e ↦ rw e (prints.formatd 15 d h)
    | inr e ↦ rw e (elim (Bool-cases (f.reads_as (f.formatd 16 d) d)) [
      | inl e' ↦ rw e' (prints.formatd 16 d h)
      | inr e' ↦ rw e' (prints.formatd 17 d h)
    ])
  ]

  float-Reads : (d : ℕ) → IsWord (if is_finite p f d then format_double f d else codes "null")
  float-Reads d = elim (Bool-cases (is_finite p f d)) [
    | inl e ↦ rw e (format_double-IsWord d e)
    | inr e ↦ rw e (refl, (refl, (refl, (refl, tt))))
  ]

  bool-IsWord : (b : Bool) → IsWord (if b then codes "true" else codes "false")
  bool-IsWord true = (refl, (refl, (refl, (refl, tt))))
  bool-IsWord false = (refl, (refl, (refl, (refl, (refl, tt)))))

  value-Reads : (v : Value) → Reads true false (json_value p f v) (value_token p f v ∷ [])
  unfolding json_value
  value-Reads null = word-Reads (codes "null") (refl, (refl, (refl, (refl, tt))))
  value-Reads (integer n) = word-Reads (p.int_to_text n) (prints.int_to_text n)
  value-Reads (float d) = word-Reads _ (float-Reads d)
  value-Reads (boolean b) = word-Reads _ (bool-IsWord b)
  value-Reads (blob bytes) =
      to_settled true (append_string (f.base64 bytes)) _ (string-Reads (f.base64 bytes))
  value-Reads (datetime t) =
      to_settled true (append_string (f.iso8601 t)) _ (string-Reads (f.iso8601 t))
  value-Reads (string s) = to_settled true (append_string s) _ (string-Reads s)

  members-ReadAll :
      (x : JsonExporter) (row : Row) → ReadAll (members p f x row) (member_tokens p f row)
  members-ReadAll x [] = tt
  members-ReadAll x ((name, v) ∷ row) = (
    append-Reads true true false (append_string name) _ (quoted name ∷ []) _ (string-Reads name) (
        append-Reads true true false (58 ∷ []) _ (symbol 58 ∷ []) _
          (from_exact true (58 ∷ []) (symbol 58 ∷ []) (symbol-Reads 58 refl refl))
          (append-Reads true true false (space x) _ [] _ (space-Reads x) (value-Reads v))),
    members-ReadAll x row,
  )

  values-ReadAll : (row : Row) → ReadAll (values p f row) (value_tokens p f row)
  values-ReadAll [] = tt
  values-ReadAll ((name, v) ∷ row) = (value-Reads v, values-ReadAll row)

  row_text-Reads :
      (x : JsonExporter) (layout : JsonLayout) (row : Row)
      → Reads true true (row_text p f x layout row) (row_tokens p f layout row)
  row_text-Reads x array_of_objects row =
      bracketed-Reads x (suc (rows_level x)) 123 125 (members p f x row) (member_tokens p f row)
        (symbol-Reads 123 refl refl) (symbol-Reads 125 refl refl) (members-ReadAll x row)
  row_text-Reads x array_of_arrays row =
      bracketed-Reads x (suc (rows_level x)) 91 93 (values p f row) (value_tokens p f row)
        (symbol-Reads 91 refl refl) (symbol-Reads 93 refl refl) (values-ReadAll row)

  line_and_row-Reads :
      (x : JsonExporter) (row : Row)
      → Reads true true
          (newline x (suc (rows_level x)) ++ row_text p f x x.layout row)
          (row_tokens p f x.layout row)
  line_and_row-Reads x row =
      append-Reads true true true (newline x (suc (rows_level x))) _ [] _
        (newline-Reads true x (suc (rows_level x))) (row_text-Reads x x.layout row)

  -- The rows behind a first one.
  more_rows-Reads :
      (x : JsonExporter) (rows : List Row)
      → x.any_rows ≡ true
      → Reads true true (json_rows p f x rows).1 (more_tokens (rows_tokens p f x.layout rows))
  unfolding json_rows
  more_rows-Reads x [] e = nothing-Reads true
  more_rows-Reads x (row ∷ rows) e =
      append-Reads true true true _ _ (symbol 44 ∷ row_tokens p f x.layout row) _
        (behind_comma-Reads x.any_rows _ (row_tokens p f x.layout row) e (line_and_row-Reads x row))
        (more_rows-Reads (record x { any_rows = true }) rows refl)

  -- All the rows.
  pub rows-Reads :
      (x : JsonExporter) (rows : List Row)
      → x.any_rows ≡ false
      → Reads true true (json_rows p f x rows).1 (list_tokens (rows_tokens p f x.layout rows))
  unfolding json_rows
  rows-Reads x [] e = nothing-Reads true
  rows-Reads x (row ∷ rows) e =
      append-Reads true true true _ _ (row_tokens p f x.layout row) _
        (alone-Reads x.any_rows _ (row_tokens p f x.layout row) e (line_and_row-Reads x row))
        (more_rows-Reads (record x { any_rows = true }) rows refl)

  pub json_rows-wrapped :
      (x : JsonExporter) (rows : List Row) → (json_rows p f x rows).0.wrapped ≡ x.wrapped
  unfolding json_rows
  json_rows-wrapped x [] = refl
  json_rows-wrapped x (row ∷ rows) = json_rows-wrapped (record x { any_rows = true }) rows
