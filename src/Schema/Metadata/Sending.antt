-- ===== src/Schema/Metadata/Sending.antt =====
-- What is sent when all tables of a metadata object are created or dropped.
use orm_glib.Base.{ℕ, ◌≡◌, refl, true, false, Option, List, [], ◌∷◌, Text}
use orm_glib.Core.Error.{Error, Status, ok, failed}
use orm_glib.Engine.Driver.{Driver, DialectType}
use orm_glib.Engine.Connection.{Connection, execute, close}
use orm_glib.Schema.{Table}
use orm_glib.Dialect.Ddl.{create_table, drop_table}
use orm_glib.Schema.Metadata.{
  MetadataEnv, metadata_new, reversed, get_table, create_tables, drop_tables, create_all, drop_all,
}
use orm_glib.Schema.Metadata.Order.{
  times, held, Change, changed_by, changed_by-IsSound, metadata_new-IsSound,
}

-- The statements of a list, sent over a connection one after the other: all of them, or those up to
-- the first one that fails.
pub data Sent {d : Driver} : Connection d → List Text → Connection d × Status → Type 0 where
  sent_all : {c : Connection d} → Sent c [] (c, ok)
  sent_next :
      {c next : Connection d} {s : Text} {more : List Text} {end : Connection d × Status}
      → execute c s ≡ (next, ok)
      → Sent next more end
      → Sent c (s ∷ more) end
  sent_stop :
      {c next : Connection d} {s : Text} {more : List Text} {e : Option Error}
      → execute c s ≡ (next, failed e)
      → Sent c (s ∷ more) (next, failed e)

abbrev pub creations : (ℕ → Table) → DialectType → List ℕ → List Text
creations table_of dialect [] = []
creations table_of dialect (t ∷ l) =
    create_table dialect (table_of t) true ∷ creations table_of dialect l

abbrev pub drops : (ℕ → Table) → DialectType → List ℕ → List Text
drops table_of dialect [] = []
drops table_of dialect (t ∷ l) =
    drop_table dialect (table_of t) true false ∷ drops table_of dialect l

module _ {d : Driver} where
  step-Sent :
      (c : Connection d) (s : Text) (more : List Text) (r end : Connection d × Status)
      → execute c s ≡ r
      → Sent r.0 more end
      → Sent c (s ∷ more) (elim r.1 [ ok ↦ end | failed e ↦ (r.0, failed e) ])
  step-Sent c s more (next, ok) end e h = sent_next e h
  step-Sent c s more (next, failed x) end e h = sent_stop e

  create_tables-Sent :
      (table_of : ℕ → Table) (dialect : DialectType) (c : Connection d) (l : List ℕ)
      → Sent c (creations table_of dialect l) (create_tables table_of dialect c l)
  unfolding create_tables
  create_tables-Sent table_of dialect c [] = sent_all
  create_tables-Sent table_of dialect c (t ∷ l) =
      let r = execute c (create_table dialect (table_of t) true) in
      step-Sent c (create_table dialect (table_of t) true) (creations table_of dialect l) r
        (create_tables table_of dialect r.0 l) refl (create_tables-Sent table_of dialect r.0 l)

  drop_tables-Sent :
      (table_of : ℕ → Table) (dialect : DialectType) (c : Connection d) (l : List ℕ)
      → Sent c (drops table_of dialect l) (drop_tables table_of dialect c l)
  unfolding drop_tables
  drop_tables-Sent table_of dialect c [] = sent_all
  drop_tables-Sent table_of dialect c (t ∷ l) =
      let r = execute c (drop_table dialect (table_of t) true false) in
      step-Sent c (drop_table dialect (table_of t) true false) (drops table_of dialect l) r
        (drop_tables table_of dialect r.0 l) refl (drop_tables-Sent table_of dialect r.0 l)

-- The connection was closed behind the statements.
abbrev pub SentAndClosed : {d : Driver} → Connection d → List Text → Connection d × Status → Type 0
SentAndClosed {d} c texts r =
    (end : Connection d × Status) × Sent c texts end × (r ≡ (close end.0, end.1))

module _ (g : MetadataEnv) where
  open g use {table_of}

  -- After any additions, removals and clearings of a new metadata object, a table is in its list
  -- exactly once if its name gives it, and not at all otherwise. Creating all tables sends, over the
  -- connection that was opened, the CREATE TABLE of each table in the list, in the order of the list,
  -- up to the first statement that fails, whose error is the result, and closes the connection;
  -- dropping all tables sends their DROP TABLE in the reverse order in the same way.
  pub all_tables :
      {d : Driver} (xs : List Change) (t : ℕ) (dialect : DialectType) (c : Connection d)
      → let m = changed_by (metadata_new g) xs in
        (times t m.table_list ≡ held (get_table m (table_of t).name) t)
        × SentAndClosed c (creations table_of dialect m.table_list) (create_all m dialect c)
        × SentAndClosed c (drops table_of dialect (reversed m.table_list)) (drop_all m dialect c)
  unfolding create_all drop_all
  all_tables xs t dialect c =
      let m = changed_by (metadata_new g) xs in
      let sound = changed_by-IsSound (metadata_new g) xs (metadata_new-IsSound {g = g}) in
      (
        sound.listed t,
        (
          create_tables table_of dialect c m.table_list,
          create_tables-Sent table_of dialect c m.table_list,
          refl,
        ),
        (
          drop_tables table_of dialect c (reversed m.table_list),
          drop_tables-Sent table_of dialect c (reversed m.table_list),
          refl,
        ),
      )
