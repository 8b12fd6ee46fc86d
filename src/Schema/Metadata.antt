-- ===== src/Schema/Metadata.antt =====
-- schema/orm-metadata.c: the tables by their names and in the order in which they were added; and
-- engine/orm-engine.c: the statements that create and drop all of them. A table is the address of an
-- OrmTable, whose name never changes.
pub mod Order
pub mod Sending
mod Samples
use orm_glib.Base.{
  ℕ, Bool, true, false, Option, none, some, List, [], ◌∷◌, ◌++◌, Text, if◌then◌else◌, ◌==◌,
}
use orm_glib.Glib.{HashTable, str_equal, lookup, contains}
use orm_glib.Core.Error.{Status, ok, failed}
use orm_glib.Engine.Driver.{Driver, DialectType}
use orm_glib.Engine.Connection.{Connection, execute, close}
use orm_glib.Schema.{Table}
use orm_glib.Dialect.Ddl.{create_table, drop_table}

pub record MetadataEnv : Type 1 where
  pub names : HashTable Text ℕ str_equal
  pub table_of : ℕ → Table

-- OrmMetadata.
pub record Metadata (g : MetadataEnv) : Type 0 where
  pub tables : g.names.Table
  pub table_list : List ℕ

unfoldable pub metadata_new : (g : MetadataEnv) → Metadata g
metadata_new g = record { tables = g.names.empty; table_list = [] }

-- g_list_find and g_list_delete_link: without the first element that is this address.
unfoldable pub delete_link : List ℕ → ℕ → List ℕ
delete_link [] t = []
delete_link (u ∷ l) t = let rest = delete_link l t in if u == t then l else u ∷ rest

-- g_list_reverse.
unfoldable pub reversed : List ℕ → List ℕ
reversed [] = []
reversed (t ∷ l) = reversed l ++ t ∷ []

module _ {g : MetadataEnv} where
  open g use {names, table_of}

  -- A name that is there already is refused.
  unfoldable pub add_table : Metadata g → ℕ → Metadata g
  add_table m t = if contains names m.tables (table_of t).name then m else record {
    tables = names.insert m.tables (table_of t).name t;
    table_list = m.table_list ++ t ∷ [];
  }

  unfoldable pub get_table : Metadata g → Text → Option ℕ
  get_table m name = lookup names m.tables name

  unfoldable pub remove_table : Metadata g → Text → Metadata g
  unfolding delete_link
  remove_table m name = elim (lookup names m.tables name) [
    | none ↦ m
    | some t ↦ record {
      tables = names.remove m.tables name;
      table_list = delete_link m.table_list t;
    }
  ]

  -- g_hash_table_remove_all leaves an empty table.
  unfoldable pub clear_tables : Metadata g → Metadata g
  clear_tables m = record { tables = names.empty; table_list = [] }

module _ {d : Driver} where
  -- The loops over the tables: the first statement that fails ends them.
  unfoldable pub create_tables :
      (ℕ → Table) → DialectType → Connection d → List ℕ → Connection d × Status
  create_tables table_of dialect c [] = (c, ok)
  create_tables table_of dialect c (t ∷ l) =
      let (next, status) = execute c (create_table dialect (table_of t) true) in
      let rest = create_tables table_of dialect next l in
      elim status [ ok ↦ rest | failed e ↦ (next, failed e) ]

  unfoldable pub drop_tables :
      (ℕ → Table) → DialectType → Connection d → List ℕ → Connection d × Status
  drop_tables table_of dialect c [] = (c, ok)
  drop_tables table_of dialect c (t ∷ l) =
      let (next, status) = execute c (drop_table dialect (table_of t) true false) in
      let rest = drop_tables table_of dialect next l in
      elim status [ ok ↦ rest | failed e ↦ (next, failed e) ]

  -- The connection is released at the end, which closes it.
  abbrev pub released : Connection d × Status → Connection d × Status
  released (c, status) = (close c, status)

  module _ {g : MetadataEnv} where
    -- orm_engine_create_all and orm_engine_drop_all, once orm_engine_connect gave a connection.
    unfoldable pub create_all : Metadata g → DialectType → Connection d → Connection d × Status
    unfolding create_tables close
    create_all m dialect c = released (create_tables g.table_of dialect c m.table_list)

    unfoldable pub drop_all : Metadata g → DialectType → Connection d → Connection d × Status
    unfolding drop_tables close reversed
    drop_all m dialect c = released (drop_tables g.table_of dialect c (reversed m.table_list))
