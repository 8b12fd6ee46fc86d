-- ===== src/Dialect/Ddl/Ends.antt =====
-- The statements on tables and indexes end where the compiler ends them.
use orm_glib.Base.{refl, ap, subst, append_assoc, ◌∙◌, Bool, true, [], ◌++◌, Text, codes}
use orm_glib.Engine.Driver.{DialectType, sqlite, postgres, mysql}
use orm_glib.Schema.{Index, Table}
use orm_glib.Dialect.{sql_quote_identifier}
use orm_glib.Dialect.Ddl.{
  column_names, columns_text, primary_key_line, foreign_key_lines, create_table, cascade_text,
  drop_table, index_condition, create_index, index_table, drop_index,
}
use orm_glib.Dialect.Ddl.Reader.{step, run, IsClosed, append-IsClosed, enclosed-IsClosed}
use orm_glib.Dialect.Ddl.Closed.{IsName, name-IsClosed, when-IsClosed, words-IsClosed}
use orm_glib.Dialect.Ddl.Tables.{
  TableFits, IndexFits, names-IsClosed, nothing-IsClosed, columns-IsClosed,
  primary_key_line-IsClosed, foreign_keys-IsClosed, close_text, table_end_lem, close_text-IsClosed,
}

index_condition-IsClosed :
    (d : DialectType) (b : Bool) (word : Text) → IsClosed word → IsClosed (index_condition d b word)
index_condition-IsClosed mysql b word h = nothing-IsClosed
index_condition-IsClosed sqlite b word h = when-IsClosed b word h
index_condition-IsClosed postgres b word h = when-IsClosed b word h

cascade-IsClosed : (d : DialectType) (b : Bool) → IsClosed (cascade_text d b)
unfolding run step
cascade-IsClosed sqlite b = nothing-IsClosed
cascade-IsClosed mysql b = nothing-IsClosed
cascade-IsClosed postgres b = when-IsClosed b (codes " CASCADE") (record { at = λ n. refl })

index_table-IsClosed : (d : DialectType) (t : Table) → IsName d t.name → IsClosed (index_table d t)
unfolding run step
index_table-IsClosed sqlite t h = nothing-IsClosed
index_table-IsClosed postgres t h = nothing-IsClosed
index_table-IsClosed mysql t h =
    append-IsClosed (codes " ON ") _ (record { at = λ n. refl }) (name-IsClosed mysql t.name h)

module _ (d : DialectType) (t : Table) (b : Bool) (f : TableFits d t) where
  create_table-IsClosed : IsClosed (create_table d t b)
  unfolding run step create_table
  create_table-IsClosed =
      let columns = columns_text d true t.columns in
      let key = primary_key_line d t.primary_key in
      let foreign = foreign_key_lines d t.foreign_keys in
      let end = codes "\n)" ++ close_text d in
      let lines = append-IsClosed columns _ (columns-IsClosed d true t.columns f.columns) (
        append-IsClosed key _ (primary_key_line-IsClosed d t.primary_key f.primary_key)
          (foreign_keys-IsClosed d t.foreign_keys f.foreign_keys)) in
      append-IsClosed (codes "CREATE TABLE ") _ (record { at = λ n. refl })
        (words-IsClosed b (codes "IF NOT EXISTS ") _ (record { at = λ n. refl })
          (append-IsClosed (sql_quote_identifier d t.name) _ (name-IsClosed d t.name f.name) (
            rw (table_end_lem d) (
              subst (λ r. IsClosed (codes " (\n" ++ r))
                (append_assoc columns (key ++ foreign) end
                  ∙ ap (λ r. columns ++ r) (append_assoc key foreign end))
                (enclosed-IsClosed (codes " (\n") (columns ++ (key ++ foreign)) (codes "\n)")
                  (close_text d) (λ n. refl) lines (λ n. refl) (close_text-IsClosed d))))))

  drop_table-IsClosed : (cascades : Bool) → IsClosed (drop_table d t b cascades)
  unfolding run step drop_table
  drop_table-IsClosed cascades =
      append-IsClosed (codes "DROP TABLE ") _ (record { at = λ n. refl })
        (words-IsClosed b (codes "IF EXISTS ") _ (record { at = λ n. refl })
          (append-IsClosed (sql_quote_identifier d t.name) _ (name-IsClosed d t.name f.name)
            (cascade-IsClosed d cascades)))

  module _ (i : Index) (k : IndexFits d i) where
    create_index-IsClosed : IsClosed (create_index d i t b)
    unfolding run step create_index
    create_index-IsClosed =
        append-IsClosed (codes "CREATE ") _ (record { at = λ n. refl })
          (words-IsClosed i.unique (codes "UNIQUE ") _ (record { at = λ n. refl })
            (append-IsClosed (codes "INDEX ") _ (record { at = λ n. refl })
              (append-IsClosed (index_condition d b (codes "IF NOT EXISTS ")) _
                (index_condition-IsClosed d b (codes "IF NOT EXISTS ") (record { at = λ n. refl }))
                (append-IsClosed (sql_quote_identifier d i.name) _ (name-IsClosed d i.name k.name) (
                  append-IsClosed (codes " ON ") _ (record { at = λ n. refl })
                    (append-IsClosed (sql_quote_identifier d t.name) _
                      (name-IsClosed d t.name f.name)
                      (enclosed-IsClosed (codes " (") (column_names d true i.columns) (codes ")") []
                        (λ n. refl) (names-IsClosed d true i.columns k.columns) (λ n. refl)
                        nothing-IsClosed)))))))

    drop_index-IsClosed : IsClosed (drop_index d i t b)
    unfolding run step drop_index
    drop_index-IsClosed =
        append-IsClosed (codes "DROP INDEX ") _ (record { at = λ n. refl })
          (append-IsClosed (index_condition d b (codes "IF EXISTS ")) _
            (index_condition-IsClosed d b (codes "IF EXISTS ") (record { at = λ n. refl }))
            (append-IsClosed (sql_quote_identifier d i.name) _ (name-IsClosed d i.name k.name)
              (index_table-IsClosed d t f.name)))

-- In each dialect, a database that goes through CREATE TABLE, DROP TABLE, CREATE INDEX or DROP INDEX
-- is outside names and strings at its end, with every parenthesis closed that was opened and none
-- else: whatever the columns of the table are called, if no other name holds the quote of the
-- dialect, and the defaults of the columns, and their types if they are of classes of a program, are
-- closed by themselves.
pub statements-IsClosed :
    (d : DialectType) (t : Table) (i : Index) (b cascades : Bool)
    → TableFits d t
    → IndexFits d i
    → IsClosed (create_table d t b)
      × IsClosed (drop_table d t b cascades)
      × IsClosed (create_index d i t b)
      × IsClosed (drop_index d i t b)
statements-IsClosed d t i b cascades f k = (
  create_table-IsClosed d t b f,
  drop_table-IsClosed d t b f cascades,
  create_index-IsClosed d t b f i k,
  drop_index-IsClosed d t b f i k,
)
