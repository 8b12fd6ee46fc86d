-- ===== src/Dialect/Ddl/Samples.antt =====
-- A table with a key of two columns, a foreign key and an index.
use orm_glib.Base.{◌≡◌, refl, true, false, none, some, [], ◌∷◌, codes}
use orm_glib.Engine.Driver.{sqlite, postgres, mysql}
use orm_glib.Schema.Types.{bigint_type, boolean_type, string_type, get_name}
use orm_glib.Schema.{
  Column, PrimaryKey, ForeignKey, Index, Table, column_new, set_primary_key, primary_key_new,
  primary_key_add_column, foreign_key_new, foreign_key_add_column, index_new, index_add_column,
}
use orm_glib.Dialect.{identifier_quote_char}
use orm_glib.Dialect.Ddl.{create_table, drop_table, create_index, drop_index}
use orm_glib.Dialect.Ddl.Reader.{IsClosed, run, step}
use orm_glib.Dialect.Ddl.Tables.{TableFits, IndexFits}
use orm_glib.Dialect.Ddl.Ends.{statements-IsClosed}

abbrev id : Column
unfolding column_new set_primary_key
id = set_primary_key (column_new (codes "id") bigint_type) true

-- A column whose name holds both quotes and a parenthesis.
abbrev odd : Column
unfolding column_new
odd = record (column_new (codes "a\"`)") boolean_type) {
  nullable = false;
  default_value = some (codes "(1)");
}

abbrev pair : PrimaryKey
unfolding primary_key_new primary_key_add_column
pair =
    primary_key_add_column (primary_key_add_column (primary_key_new none) (codes "id")) (codes "b")

abbrev parent : ForeignKey
unfolding foreign_key_new foreign_key_add_column
parent =
    foreign_key_add_column (foreign_key_new (some (codes "fk")) (codes "p")) (codes "b")
      (codes "id")

abbrev table : Table
table = record {
  name = codes "t";
  columns = odd ∷ [];
  primary_key = some pair;
  foreign_keys = parent ∷ [];
}

abbrev index : Index
unfolding index_new index_add_column
index = index_add_column (index_new (codes "i")) (codes "b")

abbrev flagged : Table
flagged = record { name = codes "t"; columns = id ∷ []; primary_key = none; foreign_keys = [] }

create_postgres :
    create_table postgres flagged true
    ≡ codes "CREATE TABLE IF NOT EXISTS \"t\" (\n    \"id\" BIGINT PRIMARY KEY\n)"
unfolding create_table id get_name
create_postgres = refl

varchar_text : get_name (string_type 1024) mysql ≡ codes "VARCHAR(1024)"
unfolding get_name
varchar_text = refl

-- A key of one column is not written, and if the column is not flagged, the table has none.
lost_key :
    create_table mysql
      (record flagged {
        columns = record id { primary_key = false } ∷ [];
        primary_key = some (record pair { columns = codes "id" ∷ [] });
      })
      false
    ≡ codes "CREATE TABLE `t` (\n    `id` BIGINT NOT NULL\n) ENGINE=InnoDB"
unfolding create_table id get_name
lost_key = refl

-- Two columns that are flagged are two primary keys, which every database refuses.
two_keys :
    create_table sqlite (record flagged { columns = id ∷ id ∷ [] }) false
    ≡ codes
        "CREATE TABLE \"t\" (\n    \"id\" INTEGER PRIMARY KEY,\n    \"id\" INTEGER PRIMARY KEY\n)"
unfolding create_table id get_name
two_keys = refl

fits : TableFits mysql table
unfolding odd pair parent run step identifier_quote_char
fits = record {
  name = (refl, tt);
  columns = (record { sql_type = tt; default_value = record { at = λ n. refl } }, tt);
  primary_key = record { name = tt; columns = ((refl, (refl, tt)), ((refl, tt), tt)) };
  foreign_keys = (
    record {
      name = (refl, (refl, tt));
      ref_table = (refl, tt);
      local_columns = ((refl, tt), tt);
      ref_columns = ((refl, (refl, tt)), tt);
    },
    tt,
  );
}

index_fits : IndexFits mysql index
unfolding index identifier_quote_char
index_fits = record { name = (refl, tt); columns = ((refl, tt), tt) }

statements-IsClosed_example :
    IsClosed (create_table mysql table true)
    × IsClosed (drop_table mysql table true false)
    × IsClosed (create_index mysql index table true)
    × IsClosed (drop_index mysql index table true)
statements-IsClosed_example = statements-IsClosed mysql table index true false fits index_fits
