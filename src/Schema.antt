-- ===== src/Schema.antt =====
-- schema/: a table as the DDL compilers read it. A list of columns is in the order in which they were
-- added.
pub mod Metadata
pub mod Types
use orm_glib.Base.{Bool, true, false, Option, none, some, List, [], ◌∷◌, ◌++◌, Text, if◌then◌else◌}
use orm_glib.Schema.Types.{SqlType}

-- OrmColumn.
pub record Column : Type 0 where
  pub name : Text
  pub sql_type : Option SqlType
  pub primary_key : Bool
  pub nullable : Bool
  pub unique : Bool
  pub autoincrement : Bool
  pub default_value : Option Text

unfoldable pub column_new : Text → SqlType → Column
column_new name type = record {
  name = name;
  sql_type = some type;
  primary_key = false;
  nullable = true;
  unique = false;
  autoincrement = false;
  default_value = none;
}

-- A primary key is not nullable.
unfoldable pub set_primary_key : Column → Bool → Column
set_primary_key c false = record c { primary_key = false }
set_primary_key c true =
    if c.primary_key then c else record c { primary_key = true; nullable = false }

-- OrmPrimaryKey.
pub record PrimaryKey : Type 0 where
  pub name : Option Text
  pub columns : List Text

unfoldable pub primary_key_new : Option Text → PrimaryKey
primary_key_new name = record { name = name; columns = [] }

unfoldable pub primary_key_add_column : PrimaryKey → Text → PrimaryKey
primary_key_add_column pk column = record pk { columns = pk.columns ++ column ∷ [] }

-- OrmForeignKeyAction.
pub data ForeignKeyAction : Type 0 where
  no_action restrict cascade set_null set_default : ForeignKeyAction

-- OrmForeignKey.
pub record ForeignKey : Type 0 where
  pub name : Option Text
  pub ref_table : Text
  pub local_columns : List Text
  pub ref_columns : List Text
  pub on_delete : ForeignKeyAction
  pub on_update : ForeignKeyAction

unfoldable pub foreign_key_new : Option Text → Text → ForeignKey
foreign_key_new name ref_table = record {
  name = name;
  ref_table = ref_table;
  local_columns = [];
  ref_columns = [];
  on_delete = no_action;
  on_update = no_action;
}

unfoldable pub foreign_key_add_column : ForeignKey → Text → Text → ForeignKey
foreign_key_add_column fk column ref_column = record fk {
  local_columns = fk.local_columns ++ column ∷ [];
  ref_columns = fk.ref_columns ++ ref_column ∷ [];
}

-- OrmIndex.
pub record Index : Type 0 where
  pub name : Text
  pub unique : Bool
  pub columns : List Text

unfoldable pub index_new : Text → Index
index_new name = record { name = name; unique = false; columns = [] }

unfoldable pub index_add_column : Index → Text → Index
index_add_column i column = record i { columns = i.columns ++ column ∷ [] }

-- OrmTable, without its hash table, which no compiler reads, and the namespace.
pub record Table : Type 0 where
  pub name : Text
  pub columns : List Column
  pub primary_key : Option PrimaryKey
  pub foreign_keys : List ForeignKey

unfoldable pub table_set_primary_key : Table → Option PrimaryKey → Table
table_set_primary_key t pk = record t { primary_key = pk }

unfoldable pub table_add_foreign_key : Table → ForeignKey → Table
table_add_foreign_key t fk = record t { foreign_keys = t.foreign_keys ++ fk ∷ [] }
