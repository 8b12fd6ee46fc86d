-- ===== src/Dialect/Ddl/Tables.antt =====
-- The lines of a table end where the compiler ends them.
use orm_glib.Base.{
  ◌≡◌, refl, Bool, true, false, not, Option, none, some, List, [], ◌∷◌, ◌++◌, length, Text, codes,
  ltb, All,
}
use orm_glib.Engine.Driver.{DialectType, sqlite, postgres, mysql}
use orm_glib.Schema.{
  Column, PrimaryKey, ForeignKeyAction, no_action, restrict, cascade, set_null, set_default,
  ForeignKey, Index, Table,
}
use orm_glib.Dialect.{sql_quote_identifier}
use orm_glib.Dialect.Ddl.{
  column_definition, column_names, constraint_text, primary_key_text, action_text, foreign_key_text,
  next_line, columns_text, primary_key_line, foreign_key_lines, table_end,
}
use orm_glib.Dialect.Ddl.Reader.{step, run, IsClosed, append-IsClosed, enclosed-IsClosed}
use orm_glib.Dialect.Ddl.Closed.{
  IsName, ColumnFits, name-IsClosed, when-IsClosed, words-IsClosed, column_definition-IsClosed,
}

-- A list of names, none of which holds the quote.
pub names-IsClosed :
    (d : DialectType) (first : Bool) (names : List Text)
    → All (IsName d) names
    → IsClosed (column_names d first names)
unfolding run step column_names
names-IsClosed d first [] h = record { at = λ n. refl }
names-IsClosed d first (s ∷ names) (h, hs) =
    words-IsClosed (not first) (codes ", ") _ (record { at = λ n. refl })
      (append-IsClosed (sql_quote_identifier d s) _ (name-IsClosed d s h)
        (names-IsClosed d false names hs))

abbrev pub IsNameOption : DialectType → Option Text → Type 0
IsNameOption d none = Unit {0}
IsNameOption d (some s) = IsName d s

constraint-IsClosed :
    (d : DialectType) (o : Option Text) → IsNameOption d o → IsClosed (constraint_text d o)
unfolding run step
constraint-IsClosed d none h = record { at = λ n. refl }
constraint-IsClosed d (some s) h =
    append-IsClosed (codes "CONSTRAINT ") _ (record { at = λ n. refl })
      (append-IsClosed (sql_quote_identifier d s) (codes " ") (name-IsClosed d s h)
        (record { at = λ n. refl }))

pub record KeyFits (d : DialectType) (pk : PrimaryKey) : Type 0 where
  pub name : IsNameOption d pk.name
  pub columns : All (IsName d) pk.columns

pub nothing-IsClosed : IsClosed []
unfolding run
nothing-IsClosed = record { at = λ n. refl }

primary_key-IsClosed :
    (d : DialectType) (pk : PrimaryKey) → KeyFits d pk → IsClosed (primary_key_text d pk)
unfolding run step primary_key_text
primary_key-IsClosed d pk f =
    append-IsClosed (constraint_text d pk.name) _ (constraint-IsClosed d pk.name f.name) (
      enclosed-IsClosed (codes "PRIMARY KEY (") (column_names d true pk.columns) (codes ")") []
        (λ n. refl) (names-IsClosed d true pk.columns f.columns) (λ n. refl) nothing-IsClosed)

action-IsClosed :
    (d : DialectType) (word : Text) (a : ForeignKeyAction)
    → IsClosed word
    → IsClosed (action_text d word a)
unfolding run step action_text
action-IsClosed sqlite word set_default h =
    append-IsClosed word (codes " SET DEFAULT") h (record { at = λ n. refl })
action-IsClosed postgres word set_default h =
    append-IsClosed word (codes " SET DEFAULT") h (record { at = λ n. refl })
action-IsClosed mysql word set_default h =
    append-IsClosed word (codes " NO ACTION") h (record { at = λ n. refl })
action-IsClosed d word cascade h =
    append-IsClosed word (codes " CASCADE") h (record { at = λ n. refl })
action-IsClosed d word set_null h =
    append-IsClosed word (codes " SET NULL") h (record { at = λ n. refl })
action-IsClosed d word restrict h =
    append-IsClosed word (codes " RESTRICT") h (record { at = λ n. refl })
action-IsClosed d word no_action h = record { at = λ n. refl }

pub record ForeignKeyFits (d : DialectType) (fk : ForeignKey) : Type 0 where
  pub name : IsNameOption d fk.name
  pub ref_table : IsName d fk.ref_table
  pub local_columns : All (IsName d) fk.local_columns
  pub ref_columns : All (IsName d) fk.ref_columns

foreign_key-IsClosed :
    (d : DialectType) (fk : ForeignKey) → ForeignKeyFits d fk → IsClosed (foreign_key_text d fk)
unfolding run step foreign_key_text
foreign_key-IsClosed d fk f =
    append-IsClosed (constraint_text d fk.name) _ (constraint-IsClosed d fk.name f.name) (
      enclosed-IsClosed (codes "FOREIGN KEY (") (column_names d true fk.local_columns)
        (codes ") REFERENCES ") _ (λ n. refl)
        (names-IsClosed d true fk.local_columns f.local_columns) (λ n. refl)
        (append-IsClosed (sql_quote_identifier d fk.ref_table) _
          (name-IsClosed d fk.ref_table f.ref_table)
          (enclosed-IsClosed (codes " (") (column_names d true fk.ref_columns) (codes ")") _
            (λ n. refl) (names-IsClosed d true fk.ref_columns f.ref_columns) (λ n. refl)
            (append-IsClosed (action_text d (codes " ON DELETE") fk.on_delete) _
              (action-IsClosed d (codes " ON DELETE") fk.on_delete (record { at = λ n. refl }))
              (action-IsClosed d (codes " ON UPDATE") fk.on_update (record { at = λ n. refl }))))))

pub columns-IsClosed :
    (d : DialectType) (first : Bool) (columns : List Column)
    → All (ColumnFits d) columns
    → IsClosed (columns_text d first columns)
unfolding run step columns_text
columns-IsClosed d first [] h = record { at = λ n. refl }
columns-IsClosed d first (c ∷ columns) (h, hs) =
    words-IsClosed (not first) (codes ",\n") _ (record { at = λ n. refl })
      (append-IsClosed (codes "    ") _ (record { at = λ n. refl })
        (append-IsClosed (column_definition d c) _ (column_definition-IsClosed d c h)
          (columns-IsClosed d false columns hs)))

abbrev pub KeyFitsOption : DialectType → Option PrimaryKey → Type 0
KeyFitsOption d none = Unit {0}
KeyFitsOption d (some pk) = KeyFits d pk

pub primary_key_line-IsClosed :
    (d : DialectType) (o : Option PrimaryKey) → KeyFitsOption d o → IsClosed (primary_key_line d o)
unfolding run step
primary_key_line-IsClosed d none h = record { at = λ n. refl }
primary_key_line-IsClosed d (some pk) h =
    when-IsClosed (ltb 1 (length pk.columns)) _
      (append-IsClosed next_line _ (record { at = λ n. refl }) (primary_key-IsClosed d pk h))

pub foreign_keys-IsClosed :
    (d : DialectType) (fks : List ForeignKey)
    → All (ForeignKeyFits d) fks
    → IsClosed (foreign_key_lines d fks)
unfolding run step foreign_key_lines
foreign_keys-IsClosed d [] h = record { at = λ n. refl }
foreign_keys-IsClosed d (fk ∷ fks) (h, hs) =
    append-IsClosed next_line _ (record { at = λ n. refl })
      (append-IsClosed (foreign_key_text d fk) _ (foreign_key-IsClosed d fk h)
        (foreign_keys-IsClosed d fks hs))

-- What a table must be like: the names of its columns may be anything, all other names hold no quote,
-- and defaults and the types of a program's classes are closed by themselves.
pub record TableFits (d : DialectType) (t : Table) : Type 0 where
  pub name : IsName d t.name
  pub columns : All (ColumnFits d) t.columns
  pub primary_key : KeyFitsOption d t.primary_key
  pub foreign_keys : All (ForeignKeyFits d) t.foreign_keys

pub record IndexFits (d : DialectType) (i : Index) : Type 0 where
  pub name : IsName d i.name
  pub columns : All (IsName d) i.columns

abbrev pub close_text : DialectType → Text
close_text mysql = codes " ENGINE=InnoDB"
close_text _ = []

pub table_end_lem : (d : DialectType) → table_end d ≡ codes "\n)" ++ close_text d
table_end_lem sqlite = refl
table_end_lem postgres = refl
table_end_lem mysql = refl

pub close_text-IsClosed : (d : DialectType) → IsClosed (close_text d)
unfolding run step
close_text-IsClosed sqlite = record { at = λ n. refl }
close_text-IsClosed postgres = record { at = λ n. refl }
close_text-IsClosed mysql = record { at = λ n. refl }
