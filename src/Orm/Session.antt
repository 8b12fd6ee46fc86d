-- ===== src/Orm/Session.antt =====
-- orm/orm-session.c: the state of a session and the operations that change its sets. GLib's tables,
-- GObject's types and properties and the driver are the parameters of `SessionEnv`.
pub mod Sql
pub mod Flush
pub mod Statements
pub mod Access
pub mod States
pub mod Loops
pub mod Invariant
pub mod Sends
pub mod Soundness
pub mod Reads
pub mod Traces
pub mod Completion
pub mod Failure
pub mod Identity
pub mod Samples
use orm_glib.Base.{
  ℕ, Bool, true, false, not, ◌&&◌, ◌||◌, List, [], ◌∷◌, ◌++◌, Text, codes, if◌then◌else◌, Option,
  none, some,
}
use orm_glib.Core.Value.{Value}
use orm_glib.Core.Error.{Error, Status, ok, failed}
use orm_glib.Glib.{HashTable, direct_equal, lookup, contains}
use orm_glib.Engine.Driver.{Driver}
use orm_glib.Engine.Connection.{Connection}
use orm_glib.Engine.Transaction.{Transaction}
use orm_glib.Orm.IdentityMap.{Env, IdentityMap, identity_map_new, remove_object}
use orm_glib.Orm.Mapper.{NameTable, Mapper, Class, mapper_new_from_serializable}

-- `type_of` is G_OBJECT_TYPE; `class_of` gives the class of a type that implements OrmSerializable.
-- `Store` holds the properties of all objects: `read` gives NULL for a property that has no value,
-- and `create` is g_object_new.
pub record SessionEnv : Type 1 where
  pub driver : Driver
  pub identity : Env
  pub names : NameTable
  pub sets : HashTable ℕ ℕ direct_equal
  pub mapper_table : HashTable ℕ (Mapper names) direct_equal
  pub type_of : ℕ → ℕ
  pub class_of : ℕ → Option Class
  pub Store : Type 0
  pub read : Store → ℕ → Text → Value
  pub write : Store → ℕ → Text → Value → Store
  pub create : Store → ℕ → Store × ℕ

-- OrmSession, and the objects' properties.
pub record Session (g : SessionEnv) : Type 0 where
  pub connection : Connection g.driver
  pub transaction : Option Transaction
  pub identity_map : IdentityMap g.identity
  pub mappers : g.mapper_table.Table
  pub pending : g.sets.Table
  pub dirty : g.sets.Table
  pub deleted : g.sets.Table
  pub attached : g.sets.Table
  pub is_closed : Bool
  pub autoflush : Bool
  pub store : g.Store

pub data ObjectState : Type 0 where
  transient pending persistent dirty deleted detached : ObjectState

abbrev pub is_filled : List ℕ → Bool
is_filled [] = false
is_filled (_ ∷ _) = true

module _ (g : SessionEnv) where
  open g use {driver, identity, sets, mapper_table}

  -- orm_session_new_with_connection; orm_session_new opens the connection itself.
  unfoldable pub session_new_with_connection : Connection driver → g.Store → Session g
  unfolding identity_map_new
  session_new_with_connection c store = record {
    connection = c;
    transaction = none;
    identity_map = identity_map_new identity;
    mappers = mapper_table.empty;
    pending = sets.empty;
    dirty = sets.empty;
    deleted = sets.empty;
    attached = sets.empty;
    is_closed = false;
    autoflush = true;
    store = store;
  }

module _ {g : SessionEnv} where
  open g use {driver, identity, sets, mapper_table, names, type_of, class_of}

  unfoldable pub register_mapper : Session g → Mapper names → Session g
  register_mapper s m = record s { mappers = mapper_table.insert s.mappers m.gtype m }

  abbrev pub get_mapper : Session g → ℕ → Option (Mapper names)
  get_mapper s gtype = lookup mapper_table s.mappers gtype

  unfoldable pub register_missing : Session g → ℕ → Class → Option (Mapper names) → Session g
  unfolding register_mapper mapper_new_from_serializable
  register_missing s gtype c (some m) = s
  register_missing s gtype c none = register_mapper s (mapper_new_from_serializable names gtype c)

  unfoldable pub add_known : Session g → ℕ → Option Class → Session g
  unfolding register_mapper mapper_new_from_serializable register_missing
  add_known s object none = s
  add_known s object (some c) =
      let s' = register_missing s (type_of object) c (get_mapper s (type_of object)) in
      record s' {
        pending = sets.insert s.pending object object;
        attached = sets.insert s.attached object object;
      }

  -- An object whose type is not serializable is refused.
  unfoldable pub add : Session g → ℕ → Session g
  unfolding register_mapper mapper_new_from_serializable add_known
  add s object = if s.is_closed then s else add_known s object (class_of (type_of object))

  unfoldable pub add_all : Session g → List ℕ → Session g
  unfolding add
  add_all s [] = s
  add_all s (object ∷ objects) = add_all (add s object) objects

  unfoldable pub delete : Session g → ℕ → Session g
  delete s object =
      if s.is_closed
      then s
      else if contains sets s.pending object
      then record s {
        pending = sets.remove s.pending object;
        attached = sets.remove s.attached object;
      }
      else record s {
        dirty = sets.remove s.dirty object;
        deleted = sets.insert s.deleted object object;
      }

  unfoldable pub expunge : Session g → ℕ → Session g
  unfolding remove_object
  expunge s object = record s {
    pending = sets.remove s.pending object;
    dirty = sets.remove s.dirty object;
    deleted = sets.remove s.deleted object;
    attached = sets.remove s.attached object;
    identity_map = (remove_object s.identity_map object).0;
  }

  unfoldable pub get_object_state : Session g → ℕ → ObjectState
  get_object_state s object =
      if contains sets s.deleted object
      then deleted
      else if contains sets s.pending object
      then pending
      else if contains sets s.dirty object
      then dirty
      else if contains sets s.attached object
      then persistent
      else transient

  -- orm_session_is_dirty: a table's size is the number of its keys.
  unfoldable pub is_dirty : Session g → Bool
  is_dirty s =
      is_filled (sets.keys s.pending)
      || is_filled (sets.keys s.dirty)
      || is_filled (sets.keys s.deleted)
