-- ===== src/Export/Json/Samples.antt =====
-- Documents of each layout.
use orm_glib.Base.{◌≡◌, refl, [], ◌∷◌, codes, true, false, none, some}
use orm_glib.Base.Int.{pos}
use orm_glib.Core.Platform.{Platform}
use orm_glib.Core.Value.{null, string, integer}
use orm_glib.Core.Value.Samples.{toy_platform}
use orm_glib.Engine.Row.{Row}
use orm_glib.Export.Csv.Samples.{formats}
use orm_glib.Export.Json.{JsonExporter, array_of_arrays, json_exporter_new, document}
use orm_glib.Export.Json.Reader.{tokens}
use orm_glib.Export.Json.Expected.{document_tokens}
use orm_glib.Export.Json.Rows.{PrintsWords}
use orm_glib.Export.Json.RoundTrip.{tokens-document}

-- Every integer is printed as 7.
abbrev platform : Platform
platform = record toy_platform { int_to_text = λ n. codes "7" }

-- `a` with a line break, and NULL.
abbrev row : Row
row = (codes "k", string (97 ∷ 10 ∷ 1 ∷ [])) ∷ (codes "n", null) ∷ (codes "i", integer (pos 4)) ∷ []

objects_text :
    document platform formats json_exporter_new [] (row ∷ [])
    ≡ codes "[{\"k\":\"a\\n\\u0001\",\"n\":null,\"i\":7}]"
unfolding document json_exporter_new
objects_text = refl

abbrev wrapping : JsonExporter
wrapping = record {
  layout = array_of_arrays;
  pretty = true;
  indent = 1;
  include_columns = true;
  wrapped = false;
  any_rows = false;
}

arrays_text :
    document platform formats wrapping (codes "k" ∷ []) []
    ≡ codes "{\n \"columns\": [\n  \"k\"\n ],\n \"rows\": []\n}"
unfolding document
arrays_text = refl

no_word : tokens (codes "[\"a]") ≡ none
unfolding tokens
no_word = refl

prints : PrintsWords platform formats
prints = record { int_to_text = λ n. (refl, tt); formatd = λ n d h. (refl, (refl, (refl, tt))) }

tokens-document_example :
    tokens
      (document platform formats wrapping (codes "k" ∷ codes "n" ∷ codes "i" ∷ []) (row ∷ row ∷ []))
    ≡ some (
        document_tokens platform formats wrapping
          (codes "k" ∷ codes "n" ∷ codes "i" ∷ [])
          (row ∷ row ∷ []))
tokens-document_example =
    tokens-document platform formats prints wrapping (codes "k" ∷ codes "n" ∷ codes "i" ∷ [])
      (row ∷ row ∷ [])
