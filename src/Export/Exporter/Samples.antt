-- ===== src/Export/Exporter/Samples.antt =====
-- An export of two rows as CSV.
use orm_glib.Base.{◌≡◌, refl, true, false, Option, none, some, List, [], ◌∷◌, ◌++◌, Text, codes}
use orm_glib.Core.Value.Samples.{toy_platform}
use orm_glib.Core.Error.{Error, execute}
use orm_glib.Export.Csv.{csv_exporter_new}
use orm_glib.Export.Csv.Samples.{formats, hard}
use orm_glib.Export.Exporter.{Format, Surroundings, csv_format, export_result}
use orm_glib.Export.Exporter.Complete.{NotCancelled, rows_text, export_result_complete}

abbrev calm : Surroundings
calm = record { accepts = λ s t. true; closes = true; is_cancelled = λ n. false }

abbrev csv : Format
unfolding csv_format csv_exporter_new
csv = csv_format toy_platform formats csv_exporter_new

abbrev names : List Text
names = codes "a" ∷ codes "b" ∷ codes "c" ∷ []

exported_ok : (export_result calm csv (codes "-") names (hard ∷ hard ∷ []) none).is_ok ≡ true
unfolding export_result csv
exported_ok = refl

broken_fails : (export_result calm csv [] names (hard ∷ []) (some execute)).is_ok ≡ false
unfolding export_result csv
broken_fails = refl

export_result_complete_example :
    (◌≡◌ {A = Option Error} none none)
    × ((export_result calm csv (codes "-") names (hard ∷ hard ∷ []) none).written
        ≡ codes "-" ++ (csv.begin names ++ (rows_text csv (hard ∷ hard ∷ []) ++ csv.end)))
    × ((export_result calm csv (codes "-") names (hard ∷ hard ∷ []) none).rows_written ≡ 2)
    × NotCancelled calm 0 3
export_result_complete_example =
    export_result_complete calm csv (codes "-") names (hard ∷ hard ∷ []) none exported_ok
