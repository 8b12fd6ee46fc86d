-- ===== src/Orm/Session/Flush.antt =====
-- orm/orm-session.c: orm_session_flush with its two loops, and the operations that end a unit of
-- work.
use orm_glib.Base.{ℕ, true, List, [], ◌∷◌, Text, if◌then◌else◌, Option, none, some}
use orm_glib.Base.Int.{pos, int_ltb}
use orm_glib.Core.Value.{Value, integer}
use orm_glib.Core.Error.{Status, ok, failed}
use orm_glib.Engine.Connection.{
  Connection, execute, execute_with_params, get_last_insert_rowid, close,
}
use orm_glib.Engine.Transaction.{Transaction, commit, rollback}
use orm_glib.Orm.IdentityMap.{add, remove_object, clear}
use orm_glib.Orm.Property.{Property}
use orm_glib.Orm.Mapper.{Mapper}
use orm_glib.Orm.Session.Sql.{build_insert_sql, build_delete_sql}
use orm_glib.Orm.Session.{SessionEnv, Session, get_mapper}

module _ {g : SessionEnv} where
  open g use {driver, identity, sets, names, type_of, write}

  -- The row id of the INSERT is written to the object, and the object enters the identity map.
  abbrev note_id : Session g → ℕ → Option Property → Session g
  unfolding add get_last_insert_rowid
  note_id s object none = s
  note_id s object (some p) =
      let last_id = get_last_insert_rowid s.connection in
      if int_ltb (pos 0) last_id
      then record s {
        store = write s.store object p.property_name (integer last_id);
        identity_map = add s.identity_map (type_of object) (integer last_id) object;
      }
      else s

  abbrev after_insert :
      Session g → ℕ → Mapper names → Connection driver × Status → Session g × Status
  unfolding add get_last_insert_rowid
  after_insert s object m (c, failed e) = (record s { connection = c }, failed e)
  after_insert s object m (c, ok) =
      let s' = note_id (record s { connection = c }) object m.primary_key in
      (record s' { pending = sets.remove s.pending object }, ok)

  abbrev insert_with : Session g → ℕ → Option (Mapper names) → Session g × Status
  unfolding build_insert_sql execute_with_params add get_last_insert_rowid
  insert_with s object none = (s, ok)
  insert_with s object (some m) =
      let (sql, params) = build_insert_sql g s.store object m in
      after_insert s object m (execute_with_params s.connection sql params)

  -- A turn of the first loop. Without a mapper the object stays pending.
  unfoldable pub insert_one : Session g → ℕ → Session g × Status
  unfolding build_insert_sql execute_with_params add get_last_insert_rowid
  insert_one s object = insert_with s object (get_mapper s (type_of object))

  abbrev forget : Session g → ℕ → Session g
  forget s object = record s {
    deleted = sets.remove s.deleted object;
    attached = sets.remove s.attached object;
  }

  abbrev after_delete : Session g → ℕ → Connection driver × Status → Session g × Status
  unfolding remove_object
  after_delete s object (c, failed e) = (record s { connection = c }, failed e)
  after_delete s object (c, ok) = (
    forget (record s { connection = c; identity_map = (remove_object s.identity_map object).0 })
        object,
    ok,
  )

  abbrev delete_statement : Session g → ℕ → Option (Text × List Value) → Session g × Status
  unfolding execute_with_params remove_object
  delete_statement s object none = (forget s object, ok)
  delete_statement s object (some (sql, params)) =
      after_delete s object (execute_with_params s.connection sql params)

  abbrev delete_with : Session g → ℕ → Option (Mapper names) → Session g × Status
  unfolding build_delete_sql execute_with_params remove_object
  delete_with s object none = (s, ok)
  delete_with s object (some m) = delete_statement s object (build_delete_sql g s.store object m)

  -- A turn of the second loop.
  unfoldable pub delete_one : Session g → ℕ → Session g × Status
  unfolding build_delete_sql execute_with_params remove_object
  delete_one s object = delete_with s object (get_mapper s (type_of object))

  -- A loop over the keys of a table, which removes no key but the current one.
  abbrev pub then_rest : (Session g → Session g × Status) → Session g × Status → Session g × Status
  then_rest next (s, ok) = next s
  then_rest next (s, failed e) = (s, failed e)

  unfoldable pub insert_loop : List ℕ → Session g → Session g × Status
  unfolding insert_one
  insert_loop [] s = (s, ok)
  insert_loop (object ∷ objects) s = then_rest (λ s'. insert_loop objects s') (insert_one s object)

  unfoldable pub delete_loop : List ℕ → Session g → Session g × Status
  unfolding delete_one
  delete_loop [] s = (s, ok)
  delete_loop (object ∷ objects) s = then_rest (λ s'. delete_loop objects s') (delete_one s object)

  abbrev pub clear_dirty : Session g → Session g × Status
  clear_dirty s = (record s { dirty = sets.empty }, ok)

  unfoldable pub flush : Session g → Session g × Status
  unfolding insert_loop delete_loop
  flush s =
      if s.is_closed
      then (s, failed none)
      else then_rest (λ s. then_rest clear_dirty (delete_loop (sets.keys s.deleted) s))
          (insert_loop (sets.keys s.pending) s)

  abbrev ended : Session g → Connection driver × Transaction × Status → Session g × Status
  ended s (c, t, status) = (record s { connection = c; transaction = some t }, status)

  unfoldable pub commit_transaction : Session g → Option Transaction → Session g × Status
  unfolding commit
  commit_transaction s none = (s, ok)
  commit_transaction s (some t) = if t.is_active then ended s (commit s.connection t) else (s, ok)

  unfoldable pub session_commit : Session g → Session g × Status
  unfolding flush commit commit_transaction
  session_commit s =
      if s.is_closed
      then (s, failed none)
      else then_rest (λ s. commit_transaction s s.transaction) (flush s)

  abbrev roll_back_transaction : Session g → Option Transaction → Session g
  unfolding rollback
  roll_back_transaction s none = s
  roll_back_transaction s (some t) =
      if t.is_active then (ended s (rollback s.connection t)).0 else s

  unfoldable pub session_rollback : Session g → Session g
  unfolding rollback
  session_rollback s =
      let s' = roll_back_transaction s s.transaction in
      record s' { pending = sets.empty; dirty = sets.empty; deleted = sets.empty }

  unfoldable pub session_execute : Session g → Text → Session g × Status
  unfolding execute
  session_execute s sql =
      let (c, status) = execute s.connection sql in
      if s.is_closed then (s, failed none) else (record s { connection = c }, status)

  unfoldable pub session_close : Session g → Session g
  unfolding session_rollback clear close
  session_close s =
      let s' = session_rollback s in
      if s.is_closed then s else record s' {
        identity_map = clear s'.identity_map;
        attached = sets.empty;
        connection = close s'.connection;
        is_closed = true;
      }
