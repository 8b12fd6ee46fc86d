-- ===== src/Orm/Session/Samples.antt =====
-- A session over association lists, with one serializable type, and the theorems on sessions at it.
use orm_glib.Base.{
  ℕ, suc, true, false, none, some, ◌≡◌, refl, arith, ◌==◌, if◌then◌else◌, List, [], ◌∷◌, Text,
  codes,
}
use orm_glib.Base.Int.{pos, int_ltb}
use orm_glib.Core.Value.{Value, integer, null}
use orm_glib.Core.Error.{ok}
use orm_glib.Glib.{contains}
use orm_glib.Glib.Assoc.{assoc_table}
use orm_glib.Engine.Driver.{Driver, sqlite, serializable, rows}
use orm_glib.Engine.Connection.{Connection, idle}
use orm_glib.Orm.IdentityMap.Samples.{toy_env}
use orm_glib.Orm.Property.{Property}
use orm_glib.Orm.Mapper.{
  Class, Mapper, mapper_new_from_serializable, add_property, get_insert_columns,
}
use orm_glib.Orm.Session.Sql.{append_columns, build_insert_sql}
use orm_glib.Orm.Session.Statements.{
  IsConsistent, add_property-IsConsistent, insert-params, inserted_values, inserted_columns, listed,
  marks,
}
use orm_glib.Orm.Session.{
  SessionEnv, Session, session_new_with_connection, add, delete, expunge, get_object_state,
  is_dirty, transient, pending, persistent, deleted,
}
use orm_glib.Orm.Session.Flush.{flush, session_commit, session_rollback}
use orm_glib.Orm.Session.Access.{session_get, found, created}
use orm_glib.Orm.Session.Completion.{IsMapped, flush-state}
use orm_glib.Orm.Session.Failure.{flush-subset}
use orm_glib.Orm.Session.Identity.{get-get}
use orm_glib.Orm.Session.Invariant.{IsSound}
use orm_glib.Orm.Session.Sends.{Sent}
use orm_glib.Orm.Session.States.{operation-states}
use orm_glib.Orm.Session.Traces.{
  Call, add_call, delete_call, flush_call, commit_call, get_call, close_call, run, run-IsSound,
}

-- Every statement is accepted, and its number is the id of the row.
abbrev pub count_driver : Driver
count_driver = record {
  Db = ℕ;
  execute = λ n _ _. (suc n, ok);
  query = λ n _ _. (n, rows (((codes "id", integer (pos 7)) ∷ []) ∷ []) none);
  last_insert_id = λ n. pos n;
  set_isolation_level = λ n _ _. (n, ok);
  close = λ n. n;
}

abbrev pub user_class : Class
user_class = record {
  type_name = codes "MyUser";
  table_name = none;
  primary_key = some (codes "id");
  pspecs =
      record { name = codes "id"; is_readable = true; is_writable = true }
      ∷ record { name = codes "full-name"; is_readable = true; is_writable = true }
      ∷ [];
}

-- Every object is of the type 80.
abbrev pub toy_session_env : SessionEnv
toy_session_env = record {
  driver = count_driver;
  identity = toy_env;
  names = assoc_table _;
  sets = assoc_table _;
  mapper_table = assoc_table _;
  type_of = λ _. 80;
  class_of = λ gtype. if gtype == 80 then some user_class else none;
  Store = List (ℕ × Text × Value);
  read = λ _ _ _. null;
  write = λ store object name v. (object, name, v) ∷ store;
  create = λ store gtype. (store, 2000);
}

abbrev connection : Connection count_driver
connection = record {
  db = 0;
  has_driver = true;
  dialect_type = sqlite;
  is_open = true;
  in_transaction = false;
  isolation_level = serializable;
  state = idle;
}

fresh : Session toy_session_env
fresh = session_new_with_connection toy_session_env connection []

fresh_open : fresh.is_closed ≡ false
unfolding fresh session_new_with_connection
fresh_open = refl

-- An object that waits for its INSERT, and one that waits for its DELETE.
busy : Session toy_session_env
busy = delete (add fresh 1001) 1002

busy_states :
    (get_object_state busy 1001 ≡ pending)
    × (get_object_state busy 1002 ≡ deleted)
    × (get_object_state busy 1003 ≡ transient)
unfolding busy fresh add delete get_object_state assoc_table session_new_with_connection
busy_states = (refl, refl, refl)

operation-states_example :
    (get_object_state (add busy 1002) 1001 ≡ get_object_state busy 1001)
    × (get_object_state (delete busy 1002) 1001 ≡ get_object_state busy 1001)
    × (get_object_state (expunge busy 1002) 1001 ≡ get_object_state busy 1001)
    × (get_object_state (session_rollback busy) 1001 ≡ persistent)
unfolding busy fresh add delete assoc_table session_new_with_connection
operation-states_example = operation-states busy 1002 1001

busy-IsMapped : IsMapped busy
unfolding busy fresh add delete assoc_table session_new_with_connection
busy-IsMapped object h = refl

flush-state_example :
    ((object : ℕ)
      → get_object_state (flush busy).0 object ≡ (
          if contains toy_session_env.sets busy.deleted object
          then transient
          else if contains toy_session_env.sets busy.attached object
          then persistent
          else transient))
    × (is_dirty (flush busy).0 ≡ false)
unfolding busy fresh add delete assoc_table session_new_with_connection flush int_ltb
flush-state_example = flush-state busy refl busy-IsMapped refl

get-get_example :
    let s = (session_get fresh 80 (integer (pos 7))).0 in
    session_get s 80 (integer (pos 7)) ≡ (s, found 2000)
unfolding fresh session_get session_new_with_connection assoc_table created
get-get_example =
    get-get 80 (integer (pos 7)) tt (λ e. omega arith) fresh
      (session_get fresh 80 (integer (pos 7))).0 2000 refl

abbrev calls : List (Call toy_session_env.names)
calls =
    add_call 1001
    ∷ flush_call
    ∷ delete_call 1001
    ∷ get_call 80 (integer (pos 7))
    ∷ commit_call
    ∷ close_call
    ∷ add_call 1002
    ∷ []

run-IsSound_example :
    let s = run fresh calls in
    IsSound s × (session_commit s ≡ flush s) × Sent s.connection (session_commit s).0.connection
unfolding fresh
run-IsSound_example = run-IsSound {g = toy_session_env} connection [] calls

abbrev email : Property
email = record {
  property_name = codes "email";
  column_name = codes "email";
  is_primary_key = false;
  is_auto_increment = false;
}

abbrev user_mapper : Mapper toy_session_env.names
user_mapper = mapper_new_from_serializable toy_session_env.names 80 user_class

table_name : user_mapper.table_name ≡ codes "my_user"
unfolding mapper_new_from_serializable
table_name = refl

add_property-IsConsistent_example : IsConsistent (add_property user_mapper email)
unfolding mapper_new_from_serializable assoc_table
add_property-IsConsistent_example =
    add_property-IsConsistent user_mapper email (refl, (refl, tt)) refl

insert-params_example :
    let parts =
      append_columns toy_session_env [] 1001 user_mapper true (get_insert_columns user_mapper) in
    (parts.params ≡ null ∷ [])
    × (parts.values ≡ codes "?")
    × (build_insert_sql toy_session_env [] 1001 user_mapper
        ≡ (codes "INSERT INTO \"my_user\" (\"full_name\") VALUES (?)", null ∷ []))
unfolding mapper_new_from_serializable assoc_table get_insert_columns append_columns inserted_values
    inserted_columns listed marks
insert-params_example = insert-params toy_session_env [] 1001 user_mapper (refl, (refl, tt))

flush-subset_example :
    let sets = toy_session_env.sets in
    let s' = (flush busy).0 in
    (contains sets s'.pending 1001 ≡ true → contains sets busy.pending 1001 ≡ true)
    × (contains sets s'.deleted 1001 ≡ true → contains sets busy.deleted 1001 ≡ true)
    × (contains sets s'.dirty 1001 ≡ true → contains sets busy.dirty 1001 ≡ true)
    × (contains sets s'.attached 1001 ≡ true → contains sets busy.attached 1001 ≡ true)
    × (contains sets busy.deleted 1001 ≡ false
        → contains sets s'.attached 1001 ≡ contains sets busy.attached 1001)
    × (s'.mappers ≡ busy.mappers)
    × (s'.transaction ≡ busy.transaction)
flush-subset_example = flush-subset busy 1001
