-- ===== src/Dialect/Ddl.antt =====
-- dialect/sqlite/orm-sqlite-ddl-compiler.c, dialect/postgres/orm-postgres-ddl-compiler.c and
-- dialect/mysql/orm-mysql-ddl-compiler.c: the statements on tables and indexes. Where the three
-- files differ, the dialect is looked at.
pub mod Closed
pub mod Ends
pub mod Reader
pub mod Tables
pub mod Types
mod Samples
use orm_glib.Base.{
  ℕ, Bool, true, false, not, ◌&&◌, Option, none, some, List, [], ◌∷◌, ◌++◌, length, Text, codes,
  text_eq, if◌then◌else◌, ltb,
}
use orm_glib.Engine.Driver.{DialectType, sqlite, postgres, mysql}
use orm_glib.Schema.Types.{SqlType, get_name}
use orm_glib.Schema.{
  Column, PrimaryKey, ForeignKeyAction, no_action, restrict, cascade, set_null, set_default,
  ForeignKey, Index, Table,
}
use orm_glib.Dialect.{quote_identifier, sql_quote_identifier}

abbrev pub when : Bool → Text → Text
when b t = if b then t else []

unfoldable pub type_of : DialectType → Option SqlType → Text
unfolding get_name
type_of d none = codes "TEXT"
type_of d (some type) = get_name type d

unfoldable pub get_column_type_sql : DialectType → Column → Text
unfolding type_of
get_column_type_sql d c = type_of d c.sql_type

abbrev pub default_text : Option Text → Text
default_text none = []
default_text (some t) = codes " DEFAULT " ++ t

unfoldable pub sqlite_column_definition : Column → Text
unfolding get_column_type_sql quote_identifier
sqlite_column_definition c =
    quote_identifier sqlite c.name
    ++ (codes " "
        ++ (get_column_type_sql sqlite c
            ++ (when c.primary_key
                  (codes " PRIMARY KEY" ++ when c.autoincrement (codes " AUTOINCREMENT"))
                ++ (when (not c.nullable && not c.primary_key) (codes " NOT NULL")
                    ++ (when (c.unique && not c.primary_key) (codes " UNIQUE")
                        ++ default_text c.default_value)))))

abbrev pub serial : Text → Text
serial type_sql = if text_eq type_sql (codes "BIGINT") then codes "BIGSERIAL" else codes "SERIAL"

unfoldable pub postgres_column_definition : Column → Text
unfolding get_column_type_sql quote_identifier text_eq
postgres_column_definition c =
    quote_identifier postgres c.name
    ++ (codes " "
        ++ ((if c.autoincrement
              then serial (get_column_type_sql postgres c)
              else get_column_type_sql postgres c)
            ++ (when c.primary_key (codes " PRIMARY KEY")
                ++ (when (not c.nullable && not c.primary_key) (codes " NOT NULL")
                    ++ (when (c.unique && not c.primary_key) (codes " UNIQUE")
                        ++ when (not c.autoincrement) (default_text c.default_value))))))

unfoldable pub mysql_column_definition : Column → Text
unfolding get_column_type_sql quote_identifier
mysql_column_definition c =
    quote_identifier mysql c.name
    ++ (codes " "
        ++ (get_column_type_sql mysql c
            ++ (when (not c.nullable && not c.primary_key) (codes " NOT NULL")
                ++ (when c.autoincrement (codes " AUTO_INCREMENT")
                    ++ (when c.primary_key (codes " PRIMARY KEY")
                        ++ (when (c.unique && not c.primary_key) (codes " UNIQUE")
                            ++ when (not c.autoincrement) (default_text c.default_value)))))))

unfoldable pub column_definition : DialectType → Column → Text
unfolding sqlite_column_definition postgres_column_definition mysql_column_definition
column_definition sqlite = sqlite_column_definition
column_definition postgres = postgres_column_definition
column_definition mysql = mysql_column_definition

-- The loops over the names of columns.
unfoldable pub column_names : DialectType → Bool → List Text → Text
unfolding sql_quote_identifier
column_names d first [] = []
column_names d first (s ∷ more) =
    when (not first) (codes ", ") ++ (sql_quote_identifier d s ++ column_names d false more)

abbrev pub constraint_text : DialectType → Option Text → Text
constraint_text d none = []
constraint_text d (some s) = codes "CONSTRAINT " ++ (sql_quote_identifier d s ++ codes " ")

unfoldable pub primary_key_text : DialectType → PrimaryKey → Text
unfolding column_names sql_quote_identifier
primary_key_text d pk =
    constraint_text d pk.name
    ++ (codes "PRIMARY KEY (" ++ (column_names d true pk.columns ++ codes ")"))

-- The switches over the actions; MySQL has no SET DEFAULT.
unfoldable pub action_text : DialectType → Text → ForeignKeyAction → Text
action_text d word cascade = word ++ codes " CASCADE"
action_text d word set_null = word ++ codes " SET NULL"
action_text mysql word set_default = word ++ codes " NO ACTION"
action_text _ word set_default = word ++ codes " SET DEFAULT"
action_text d word restrict = word ++ codes " RESTRICT"
action_text d word no_action = []

unfoldable pub foreign_key_text : DialectType → ForeignKey → Text
unfolding column_names sql_quote_identifier action_text
foreign_key_text d fk =
    constraint_text d fk.name
    ++ (codes "FOREIGN KEY ("
        ++ (column_names d true fk.local_columns
            ++ (codes ") REFERENCES "
                ++ (sql_quote_identifier d fk.ref_table
                    ++ (codes " ("
                        ++ (column_names d true fk.ref_columns
                            ++ (codes ")"
                                ++ (action_text d (codes " ON DELETE") fk.on_delete
                                    ++ action_text d (codes " ON UPDATE") fk.on_update))))))))

-- A comma, a line break and four spaces.
abbrev pub next_line : Text
next_line = codes ",\n    "

unfoldable pub columns_text : DialectType → Bool → List Column → Text
unfolding column_definition
columns_text d first [] = []
columns_text d first (c ∷ more) =
    when (not first) (codes ",\n")
    ++ (codes "    " ++ (column_definition d c ++ columns_text d false more))

-- Only a key of several columns is written behind the columns.
abbrev pub primary_key_line : DialectType → Option PrimaryKey → Text
primary_key_line d none = []
primary_key_line d (some pk) = when (ltb 1 (length pk.columns)) (next_line ++ primary_key_text d pk)

unfoldable pub foreign_key_lines : DialectType → List ForeignKey → Text
unfolding foreign_key_text
foreign_key_lines d [] = []
foreign_key_lines d (fk ∷ more) = next_line ++ (foreign_key_text d fk ++ foreign_key_lines d more)

abbrev pub table_end : DialectType → Text
table_end mysql = codes "\n) ENGINE=InnoDB"
table_end _ = codes "\n)"

unfoldable pub create_table : DialectType → Table → Bool → Text
unfolding sql_quote_identifier columns_text primary_key_text foreign_key_lines
create_table d t if_not_exists =
    codes "CREATE TABLE "
    ++ (when if_not_exists (codes "IF NOT EXISTS ")
        ++ (sql_quote_identifier d t.name
            ++ (codes " (\n"
                ++ (columns_text d true t.columns
                    ++ (primary_key_line d t.primary_key
                        ++ (foreign_key_lines d t.foreign_keys ++ table_end d))))))

-- Only PostgreSQL takes CASCADE.
abbrev pub cascade_text : DialectType → Bool → Text
cascade_text postgres cascades = when cascades (codes " CASCADE")
cascade_text _ cascades = []

unfoldable pub drop_table : DialectType → Table → Bool → Bool → Text
unfolding sql_quote_identifier
drop_table d t if_exists cascades =
    codes "DROP TABLE "
    ++ (when if_exists (codes "IF EXISTS ")
        ++ (sql_quote_identifier d t.name ++ cascade_text d cascades))

-- MySQL has neither IF NOT EXISTS nor IF EXISTS for an index.
abbrev pub index_condition : DialectType → Bool → Text → Text
index_condition mysql b word = []
index_condition _ b word = when b word

unfoldable pub create_index : DialectType → Index → Table → Bool → Text
unfolding sql_quote_identifier column_names
create_index d i t if_not_exists =
    codes "CREATE "
    ++ (when i.unique (codes "UNIQUE ")
        ++ (codes "INDEX "
            ++ (index_condition d if_not_exists (codes "IF NOT EXISTS ")
                ++ (sql_quote_identifier d i.name
                    ++ (codes " ON "
                        ++ (sql_quote_identifier d t.name
                            ++ (codes " (" ++ (column_names d true i.columns ++ codes ")"))))))))

-- MySQL asks for the table.
abbrev pub index_table : DialectType → Table → Text
index_table mysql t = codes " ON " ++ sql_quote_identifier mysql t.name
index_table _ t = []

unfoldable pub drop_index : DialectType → Index → Table → Bool → Text
unfolding sql_quote_identifier
drop_index d i t if_exists =
    codes "DROP INDEX "
    ++ (index_condition d if_exists (codes "IF EXISTS ")
        ++ (sql_quote_identifier d i.name ++ index_table d t))
