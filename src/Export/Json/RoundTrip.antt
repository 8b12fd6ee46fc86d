-- ===== src/Export/Json/RoundTrip.antt =====
-- A document is read back as the rows that were exported.
use orm_glib.Base.{
  ◌≡◌, refl, ap, sym, subst, ◌∙◌, Bool, true, false, some, List, [], ◌∷◌, ◌++◌, append_assoc, Text,
  codes, if◌then◌else◌,
}
use orm_glib.Core.Platform.{Platform}
use orm_glib.Engine.Row.{Row}
use orm_glib.Export.Formats.{Formats}
use orm_glib.Export.Json.{
  JsonExporter, newline, space, append_string, bracketed, strings, columns_key, rows_key, wraps,
  json_begin, json_rows, rows_level, json_end, document,
}
use orm_glib.Export.Json.Reader.{Token, symbol, quoted, between, final_tokens, tokens}
use orm_glib.Export.Json.Expected.{
  list_tokens, bracketed_tokens, name_tokens, rows_tokens, document_tokens,
}
use orm_glib.Export.Json.Lexing.{
  Reads, append-Reads, symbol-Reads, newline-Reads, space-Reads, string-Reads, from_exact,
}
use orm_glib.Export.Json.Rows.{
  PrintsWords, bracketed-Reads, strings-ReadAll, rows-Reads, json_rows-wrapped,
}

abbrev head_tokens : Bool → List Text → List Token
head_tokens true names =
    symbol 123
    ∷ quoted (codes "columns")
    ∷ symbol 58
    ∷ (bracketed_tokens 91 93 (name_tokens names)
        ++ (symbol 44 ∷ quoted (codes "rows") ∷ symbol 58 ∷ symbol 91 ∷ []))
head_tokens false names = symbol 91 ∷ []

abbrev tail_tokens : Bool → List Token
tail_tokens true = symbol 93 ∷ symbol 125 ∷ []
tail_tokens false = symbol 93 ∷ []

key-Reads :
    (name : Text) → Reads true true (append_string name ++ 58 ∷ []) (quoted name ∷ symbol 58 ∷ [])
key-Reads name =
    append-Reads true true true (append_string name) (58 ∷ []) (quoted name ∷ []) (symbol 58 ∷ [])
      (string-Reads name) (from_exact true (58 ∷ []) (symbol 58 ∷ []) (symbol-Reads 58 refl refl))

comma-Reads : Reads true true (44 ∷ []) (symbol 44 ∷ [])
comma-Reads = from_exact true (44 ∷ []) (symbol 44 ∷ []) (symbol-Reads 44 refl refl)

open-Reads : Reads true true (91 ∷ []) (symbol 91 ∷ [])
open-Reads = from_exact true (91 ∷ []) (symbol 91 ∷ []) (symbol-Reads 91 refl refl)

close-Reads : Reads true true (93 ∷ []) (symbol 93 ∷ [])
close-Reads = from_exact true (93 ∷ []) (symbol 93 ∷ []) (symbol-Reads 93 refl refl)

abbrev head_text : JsonExporter → List Text → Bool → Text
head_text x names w =
    if w
    then 123
      ∷ (newline x 1
          ++ (columns_key
              ++ (space x
                  ++ (bracketed x 1 91 93 (strings names)
                      ++ (44 ∷ (newline x 1 ++ (rows_key ++ (space x ++ 91 ∷ []))))))))
    else 91 ∷ []

head-Reads :
    (x : JsonExporter) (names : List Text) (w : Bool)
    → Reads true true (head_text x names w) (head_tokens w names)
head-Reads x names false = open-Reads
head-Reads x names true =
    append-Reads true true true (123 ∷ []) _ (symbol 123 ∷ []) _
      (from_exact true (123 ∷ []) (symbol 123 ∷ []) (symbol-Reads 123 refl refl))
      (append-Reads true true true (newline x 1) _ [] _ (newline-Reads true x 1) (
        append-Reads true true true columns_key _ (quoted (codes "columns") ∷ symbol 58 ∷ []) _
          (key-Reads (codes "columns"))
          (append-Reads true true true (space x) _ [] _ (space-Reads x) (
            append-Reads true true true (bracketed x 1 91 93 (strings names)) _
              (bracketed_tokens 91 93 (name_tokens names)) _
              (bracketed-Reads x 1 91 93 (strings names) (name_tokens names)
                (symbol-Reads 91 refl refl) (symbol-Reads 93 refl refl) (strings-ReadAll names))
              (rows_key-Reads x)))))
  where
    rows_key-Reads :
        (x : JsonExporter)
        → Reads true true
            (44 ∷ (newline x 1 ++ (rows_key ++ (space x ++ 91 ∷ []))))
            (symbol 44 ∷ quoted (codes "rows") ∷ symbol 58 ∷ symbol 91 ∷ [])
    rows_key-Reads x = append-Reads true true true (44 ∷ []) _ (symbol 44 ∷ []) _ comma-Reads (
        append-Reads true true true (newline x 1) _ [] _ (newline-Reads true x 1) (
          append-Reads true true true rows_key _ (quoted (codes "rows") ∷ symbol 58 ∷ []) _
            (key-Reads (codes "rows"))
            (append-Reads true true true (space x) _ [] _ (space-Reads x) open-Reads)))

ends-Reads :
    (x : JsonExporter) (w : Bool)
    → Reads true true (93 ∷ (if w then newline x 0 ++ 125 ∷ [] else [])) (tail_tokens w)
ends-Reads x false = close-Reads
ends-Reads x true = append-Reads true true true (93 ∷ []) _ (symbol 93 ∷ []) _ close-Reads (
    append-Reads true true true (newline x 0) _ [] _ (newline-Reads true x 0)
      (from_exact true (125 ∷ []) (symbol 125 ∷ []) (symbol-Reads 125 refl refl)))

tail-Reads :
    (x : JsonExporter) (any w : Bool)
    → Reads true true
        ((if any then newline x (rows_level x) else [])
          ++ (93 ∷ (if w then newline x 0 ++ 125 ∷ [] else [])))
        (tail_tokens w)
tail-Reads x false w = ends-Reads x w
tail-Reads x true w =
    append-Reads true true true (newline x (rows_level x)) _ [] _
      (newline-Reads true x (rows_level x)) (ends-Reads x w)

-- The tokens of the parts are those of the document.
parts :
    (w : Bool) (names : List Text) (uss : List (List Token))
    → head_tokens w names ++ (list_tokens uss ++ tail_tokens w) ≡ (
        let array = bracketed_tokens 91 93 uss in
        if w
        then symbol 123
          ∷ quoted (codes "columns")
          ∷ symbol 58
          ∷ (bracketed_tokens 91 93 (name_tokens names)
              ++ (symbol 44 ∷ quoted (codes "rows") ∷ symbol 58 ∷ (array ++ symbol 125 ∷ [])))
        else array)
parts false names uss = refl
parts true names uss =
    let array = bracketed_tokens 91 93 (name_tokens names) in
    let rest = list_tokens uss in
    let key = symbol 44 ∷ quoted (codes "rows") ∷ symbol 58 ∷ symbol 91 ∷ [] in
    ap (λ us. symbol 123 ∷ quoted (codes "columns") ∷ symbol 58 ∷ us)
      (append_assoc array key (rest ++ symbol 93 ∷ symbol 125 ∷ [])
        ∙ ap (λ us. array ++ (key ++ us))
            (sym (append_assoc rest (symbol 93 ∷ []) (symbol 125 ∷ []))))

module _ (p : Platform) (f : Formats) (prints : PrintsWords p f) where
  document-Reads :
      (x : JsonExporter) (names : List Text) (rows : List Row)
      → let w = wraps x.layout x.include_columns in
        Reads true true
          (document p f x names rows)
          (head_tokens w names ++ (list_tokens (rows_tokens p f x.layout rows) ++ tail_tokens w))
  unfolding document
  document-Reads x names rows =
      let w = wraps x.layout x.include_columns in
      let begun = (json_begin x names).0 in
      let ended = (json_rows p f begun rows).0 in
      append-Reads true true true (json_begin x names).1 _ (head_tokens w names) _
        (head-Reads x names w)
        (append-Reads true true true (json_rows p f begun rows).1 _
          (list_tokens (rows_tokens p f x.layout rows)) _ (rows-Reads p f prints begun rows refl)
          (subst (λ b. Reads true true (json_end ended) (tail_tokens b))
            (json_rows-wrapped p f prints begun rows)
            (tail-Reads ended ended.any_rows ended.wrapped)))

  -- The document of an export, as long as numbers are printed as words, splits into the tokens of the
  -- JSON value that holds the rows: an array of them, in an object beside the names of the columns if
  -- the layout asks for it, each name and text read back as itself, whatever characters it holds, a
  -- NULL and a number that is not finite as null. How the document is indented makes no difference.
  pub tokens-document :
      (x : JsonExporter) (names : List Text) (rows : List Row)
      → tokens (document p f x names rows) ≡ some (document_tokens p f x names rows)
  unfolding tokens
  tokens-document x names rows =
      ap final_tokens (document-Reads x names rows (between, []) [] refl)
      ∙ ap some (parts (wraps x.layout x.include_columns) names (rows_tokens p f x.layout rows))
