-- ===== src/Orm/Session/States.antt =====
-- orm_session_get_object_state of orm/orm-session.c, as the state machine that the operations on one
-- object drive.
use orm_glib.Base.{
  Bool, true, not, ◌&&◌, none, Bool-cases, ℕ, false, ◌≡◌, if◌then◌else◌, ◌==◌, some, arith,
  Option-cases, inl, inr,
}
use orm_glib.Glib.{contains}
use orm_glib.Orm.Mapper.{Class}
use orm_glib.Orm.Session.{
  SessionEnv, Session, transient, pending, persistent, dirty, deleted, add, add_known,
  register_missing, delete, expunge, get_object_state, get_mapper,
}
use orm_glib.Orm.Session.Flush.{session_rollback}

module _ {g : SessionEnv} (s : Session g) where
  open g use {sets, type_of, class_of}

  -- In an open session, adding a serializable object makes it pending, or leaves it deleted if it
  -- was marked for deletion; the states of the other objects do not change.
  pub add-state :
      (object other : ℕ) (c : Class)
      → s.is_closed ≡ false
      → class_of (type_of object) ≡ some c
      → get_object_state (add s object) other ≡ (
          if object == other
          then (if contains sets s.deleted other then deleted else pending)
          else get_object_state s other)
  unfolding add add_known register_missing get_object_state
  add-state object other c o e = elim (Option-cases (get_mapper s (type_of object))) [
    | inl n ↦ ground (
      arith,
      o,
      e,
      n,
      sets.lookup-insert s.pending object object other,
      sets.lookup-insert s.attached object object other,
    )
    | inr (m, k) ↦ ground (
      arith,
      o,
      e,
      k,
      sets.lookup-insert s.pending object object other,
      sets.lookup-insert s.attached object object other,
    )
  ]

  -- In an open session, deleting an object that is pending makes it what it was apart from that,
  -- with no place among the attached ones; deleting any other one, known to the session or not,
  -- makes it deleted. The states of the other objects do not change.
  pub delete-state :
      (object other : ℕ)
      → s.is_closed ≡ false
      → get_object_state (delete s object) other ≡ (
          if object == other
          then (if contains sets s.pending other
              then (if contains sets s.deleted other
                  then deleted
                  else if contains sets s.dirty other
                  then dirty
                  else transient)
              else deleted)
          else get_object_state s other)
  unfolding delete get_object_state
  delete-state object other o = ground (
    arith,
    o,
    sets.lookup-remove s.pending object other,
    sets.lookup-remove s.attached object other,
    sets.lookup-remove s.dirty object other,
    sets.lookup-insert s.deleted object object other,
  )

  -- Expunging an object makes it transient and changes the state of no other object.
  pub expunge-state :
      (object other : ℕ)
      → get_object_state (expunge s object) other
        ≡ (if object == other then transient else get_object_state s other)
  unfolding expunge get_object_state
  expunge-state object other = ground (
    arith,
    sets.lookup-remove s.pending object other,
    sets.lookup-remove s.attached object other,
    sets.lookup-remove s.dirty object other,
    sets.lookup-remove s.deleted object other,
  )

  -- After a rollback every attached object is persistent, also one that was only pending, and every
  -- other one is transient.
  pub rollback-state :
      (object : ℕ)
      → get_object_state (session_rollback s) object
        ≡ (if contains sets s.attached object then persistent else transient)
  unfolding session_rollback get_object_state
  rollback-state object = elim (Option-cases s.transaction) [
    | inl n ↦ ground (arith, n, sets.lookup-empty object)
    | inr (t, k) ↦ ground (arith, k, sets.lookup-empty object)
  ]

  -- The session is open, and the type of the object is serializable.
  abbrev pub can_add : ℕ → Bool
  can_add object =
      not s.is_closed && elim (class_of (type_of object)) [ none ↦ false | some c ↦ true ]

  add_any :
      (object other : ℕ)
      → get_object_state (add s object) other ≡ (
          if can_add object && (object == other)
          then (if contains sets s.deleted other then deleted else pending)
          else get_object_state s other)
  unfolding add
  add_any object other = elim (Bool-cases s.is_closed) [
    | inl o ↦ ground (arith, o)
    | inr o ↦ elim (Option-cases (class_of (type_of object))) [
      | inl n ↦ ground (arith, o, n)
      | inr (c, e) ↦ ground (arith, o, e, add-state object other c o e)
    ]
  ]

  delete_any :
      (object other : ℕ)
      → get_object_state (delete s object) other ≡ (
          if not s.is_closed && (object == other)
          then (if contains sets s.pending other
              then (if contains sets s.deleted other
                  then deleted
                  else if contains sets s.dirty other
                  then dirty
                  else transient)
              else deleted)
          else get_object_state s other)
  unfolding delete
  delete_any object other = elim (Bool-cases s.is_closed) [
    | inl o ↦ ground (arith, o)
    | inr o ↦ ground (arith, o, delete-state object other o)
  ]

  -- The states of an object after each operation of a session. Where the session is open and the
  -- object's type is serializable, adding it makes it pending, or leaves it deleted if it was marked
  -- for deletion; where the session is closed or the type is not serializable, adding changes
  -- nothing. In an open session, deleting an object that is pending makes it what it was apart from
  -- that, with no place among the attached ones, and deleting any other one, known to the session or
  -- not, makes it deleted; in a closed session deleting changes nothing. Expunging makes an object
  -- transient, in any session. These three change the state of no other object. After a rollback, in
  -- any session, every attached object is persistent, also one that was only pending, and every other
  -- one is transient.
  pub operation-states :
      (object other : ℕ)
      → (get_object_state (add s object) other ≡ (
          if can_add object && (object == other)
          then (if contains sets s.deleted other then deleted else pending)
          else get_object_state s other))
        × (get_object_state (delete s object) other ≡ (
            if not s.is_closed && (object == other)
            then (if contains sets s.pending other
                then (if contains sets s.deleted other
                    then deleted
                    else if contains sets s.dirty other
                    then dirty
                    else transient)
                else deleted)
            else get_object_state s other))
        × (get_object_state (expunge s object) other
            ≡ (if object == other then transient else get_object_state s other))
        × (get_object_state (session_rollback s) other
            ≡ (if contains sets s.attached other then persistent else transient))
  operation-states object other = (
    add_any object other,
    delete_any object other,
    expunge-state object other,
    rollback-state other,
  )
