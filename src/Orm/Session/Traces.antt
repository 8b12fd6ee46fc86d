-- ===== src/Orm/Session/Traces.antt =====
-- The calls of a client on a session of orm/orm-session.c, in any order.
use orm_glib.Base.{ℕ, ◌≡◌, arith, refl, List, [], ◌∷◌, Text}
use orm_glib.Core.Value.{Value}
use orm_glib.Engine.Connection.{Connection}
use orm_glib.Orm.Mapper.{NameTable, Mapper}
use orm_glib.Orm.Session.{
  SessionEnv, Session, add, delete, expunge, register_mapper, session_new_with_connection,
}
use orm_glib.Orm.Session.Flush.{
  flush, session_commit, session_rollback, session_execute, session_close,
}
use orm_glib.Orm.Session.Access.{session_get, refresh}
use orm_glib.Orm.Session.Invariant.{
  IsSound, add-IsSound, delete-IsSound, expunge-IsSound, rollback-IsSound,
}
use orm_glib.Orm.Session.Sends.{Sent, flush-Sent}
use orm_glib.Orm.Session.Soundness.{flush-IsSound, execute-IsSound, close-IsSound, commit-flush}
use orm_glib.Orm.Session.Reads.{get-IsSound, refresh-IsSound}

-- The calls that a client makes; orm_session_add_all is a sequence of adds.
pub data Call (names : NameTable) : Type 0 where
  register_call : Mapper names → Call names
  add_call delete_call expunge_call refresh_call : ℕ → Call names
  flush_call commit_call rollback_call close_call : Call names
  get_call : ℕ → Value → Call names
  execute_call : Text → Call names

module _ {g : SessionEnv} where
  pub step : Session g → Call g.names → Session g
  step s (register_call m) = register_mapper s m
  step s (add_call object) = add s object
  step s (delete_call object) = delete s object
  step s (expunge_call object) = expunge s object
  step s (refresh_call object) = (refresh s object).0
  step s flush_call = (flush s).0
  step s commit_call = (session_commit s).0
  step s rollback_call = session_rollback s
  step s close_call = session_close s
  step s (get_call gtype pk) = (session_get s gtype pk).0
  step s (execute_call sql) = (session_execute s sql).0

  pub run : Session g → List (Call g.names) → Session g
  run s [] = s
  run s (call ∷ calls) = run (step s call) calls

  register-IsSound :
      (s : Session g) (m : Mapper g.names) → IsSound s → IsSound (register_mapper s m)
  unfolding register_mapper
  register-IsSound s m v = record {
    mapped = λ o h.
        ground
          (arith, v.mapped o h, g.mapper_table.lookup-insert s.mappers m.gtype m (g.type_of o));
    held = v.held;
    clean = v.clean;
    untracked = v.untracked;
  }

  step-IsSound : (s : Session g) (call : Call g.names) → IsSound s → IsSound (step s call)
  unfolding step
  step-IsSound s (register_call m) v = register-IsSound s m v
  step-IsSound s (add_call object) v = add-IsSound s object v
  step-IsSound s (delete_call object) v = delete-IsSound s object v
  step-IsSound s (expunge_call object) v = expunge-IsSound s object v
  step-IsSound s (refresh_call object) v = refresh-IsSound s object v
  step-IsSound s flush_call v = flush-IsSound s v
  step-IsSound s commit_call v = (commit-flush s v).1
  step-IsSound s rollback_call v = rollback-IsSound s v
  step-IsSound s close_call v = close-IsSound s v
  step-IsSound s (get_call gtype pk) v = get-IsSound s gtype pk v
  step-IsSound s (execute_call sql) v = execute-IsSound s sql v

  run_lem : (s : Session g) (calls : List (Call g.names)) → IsSound s → IsSound (run s calls)
  unfolding run
  run_lem s [] v = v
  run_lem s (call ∷ calls) v = run_lem (step s call) calls (step-IsSound s call v)

  new-IsSound :
      (c : Connection g.driver) (store : g.Store) → IsSound (session_new_with_connection g c store)
  unfolding session_new_with_connection
  new-IsSound c store = record {
    mapped = λ o h. ground (arith, h, g.sets.lookup-empty o);
    held = λ o h. ground (arith, h, g.sets.lookup-empty o);
    clean = λ o. ground (arith, g.sets.lookup-empty o);
    untracked = refl;
  }

  -- In a new session, after any sequence of registrations of mappers, adds, deletes, expunges,
  -- refreshes, flushes, commits, rollbacks, gets, statements and closings, whatever the database
  -- answers: every pending object is attached and of a type with a mapper, no object is dirty, the
  -- session has no transaction, and a commit is a flush, which brings the connection to where it
  -- stands by statements that begin with INSERT INTO or DELETE FROM and by nothing else, so that
  -- COMMIT is not a statement that it sends.
  pub run-IsSound :
      (c : Connection g.driver) (store : g.Store) (calls : List (Call g.names))
      → let s = run (session_new_with_connection g c store) calls in
        IsSound s × (session_commit s ≡ flush s) × Sent s.connection (session_commit s).0.connection
  run-IsSound c store calls =
      let sound = run_lem (session_new_with_connection g c store) calls (new-IsSound c store) in
      let same = (commit-flush _ sound).0 in (sound, same, rw same (flush-Sent _))
