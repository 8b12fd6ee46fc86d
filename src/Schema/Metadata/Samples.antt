-- ===== src/Schema/Metadata/Samples.antt =====
-- Two tables that are added, and one of them taken away.
use orm_glib.Base.{ℕ, ◌≡◌, refl, List, [], ◌∷◌, codes, text_eq, none, if◌then◌else◌, ◌==◌}
use orm_glib.Glib.Assoc.{assoc_table}
use orm_glib.Engine.Driver.{sqlite}
use orm_glib.Engine.Connection.{execute}
use orm_glib.Engine.Transaction.Samples.{connection}
use orm_glib.Schema.{Table}
use orm_glib.Schema.Metadata.{
  MetadataEnv, metadata_new, add_table, remove_table, get_table, create_all, drop_all, reversed,
}
use orm_glib.Dialect.Ddl.{drop_table}
use orm_glib.Schema.Metadata.Order.{times, held, Change, add_change, remove_change, changed_by}
use orm_glib.Schema.Metadata.Sending.{SentAndClosed, creations, drops, all_tables}

-- Even addresses are called a, odd ones b.
abbrev tables : ℕ → Table
tables t = record {
  name = if t == 1 then codes "b" else codes "a";
  columns = [];
  primary_key = none;
  foreign_keys = [];
}

abbrev env : MetadataEnv
env = record { names = assoc_table _; table_of = tables }

-- The second table of the name a is refused.
abbrev changes : List Change
changes = add_change 0 ∷ add_change 1 ∷ add_change 2 ∷ remove_change (codes "b") ∷ add_change 1 ∷ []

listed : (changed_by (metadata_new env) changes).table_list ≡ 0 ∷ 1 ∷ []
unfolding metadata_new add_table remove_table assoc_table text_eq
listed = refl

dropped :
    (drop_all (changed_by (metadata_new env) changes) sqlite connection).0.db
    ≡ codes "DROP TABLE IF EXISTS \"a\"" ∷ codes "DROP TABLE IF EXISTS \"b\"" ∷ []
unfolding metadata_new add_table remove_table assoc_table text_eq drop_all execute drop_table
dropped = refl

all_tables_example :
    let m = changed_by (metadata_new env) changes in
    (times 1 m.table_list ≡ held (get_table m (codes "b")) 1)
    × SentAndClosed connection
        (creations tables sqlite m.table_list)
        (create_all m sqlite connection)
    × SentAndClosed connection
        (drops tables sqlite (reversed m.table_list))
        (drop_all m sqlite connection)
all_tables_example = all_tables env changes 1 sqlite connection
