-- ===== src/Orm/Session/Failure.antt =====
-- What orm_session_flush of orm/orm-session.c may change, also when it fails half-way.
use orm_glib.Base.{
  ℕ, Bool, true, false, ◌≡◌, ◌==◌, arith, Option-cases, inl, inr, List, [], ◌∷◌, any, Bool-cases,
}
use orm_glib.Glib.{contains}
use orm_glib.Engine.Connection.{execute_with_params}
use orm_glib.Orm.Session.{SessionEnv, Session, get_mapper}
use orm_glib.Orm.Session.Sql.{build_delete_sql}
use orm_glib.Orm.Session.Flush.{insert_loop, delete_one, delete_loop, flush}
use orm_glib.Orm.Session.Loops.{
  Status-cases, insert_loop-Inserts, insert_loop-subset, delete_loop-Deletes,
}

-- What the second loop may do to one object: it leaves the sets only if it is on the list.
record Spares {g : SessionEnv} (s s' : Session g) (listed : Bool) (other : ℕ) : Type 0 where
  deleted : contains g.sets s'.deleted other ≡ true → contains g.sets s.deleted other ≡ true
  attached : contains g.sets s'.attached other ≡ true → contains g.sets s.attached other ≡ true
  spared : listed ≡ false → contains g.sets s'.attached other ≡ contains g.sets s.attached other

module _ {g : SessionEnv} where
  open g use {sets, type_of}

  delete_one-Spares :
      (s : Session g) (object other : ℕ) → Spares s (delete_one s object).0 (object == other) other
  unfolding delete_one
  delete_one-Spares s object other = elim (Option-cases (get_mapper s (type_of object))) [
    | inl n ↦ ground (arith, n)
    | inr (m, k) ↦ elim (Option-cases (build_delete_sql g s.store object m)) [
      | inl n ↦ ground (
        arith,
        k,
        n,
        sets.lookup-remove s.deleted object other,
        sets.lookup-remove s.attached object other,
      )
      | inr (sql, k') ↦ elim (Status-cases (execute_with_params s.connection sql.0 sql.1).1) [
        | inl e ↦ ground (
          arith,
          k,
          k',
          e,
          sets.lookup-remove s.deleted object other,
          sets.lookup-remove s.attached object other,
        )
        | inr (x, e) ↦ ground (arith, k, k', e)
      ]
    ]
  ]

  delete_loop-Spares :
      (objects : List ℕ) (s : Session g) (other : ℕ)
      → Spares s (delete_loop objects s).0 (any (λ k. k == other) objects) other
  unfolding delete_loop
  delete_loop-Spares [] s other = ground arith
  delete_loop-Spares (object ∷ objects) s other = elim (Status-cases (delete_one s object).1) [
    | inl e ↦ ground (
      arith,
      e,
      delete_one-Spares s object other,
      delete_loop-Spares objects (delete_one s object).0 other,
    )
    | inr (x, e) ↦ ground (arith, e, delete_one-Spares s object other)
  ]

  -- Whether a flush succeeds or fails, and whatever the database answers: no object becomes
  -- pending, marked for deletion, dirty or attached, an attached one that was not marked for
  -- deletion stays attached, and the session's mappers and its transaction do not change.
  pub flush-subset :
      (s : Session g) (object : ℕ)
      → let s' = (flush s).0 in
        (contains sets s'.pending object ≡ true → contains sets s.pending object ≡ true)
        × (contains sets s'.deleted object ≡ true → contains sets s.deleted object ≡ true)
        × (contains sets s'.dirty object ≡ true → contains sets s.dirty object ≡ true)
        × (contains sets s'.attached object ≡ true → contains sets s.attached object ≡ true)
        × (contains sets s.deleted object ≡ false
            → contains sets s'.attached object ≡ contains sets s.attached object)
        × (s'.mappers ≡ s.mappers)
        × (s'.transaction ≡ s.transaction)
  unfolding flush
  flush-subset s object =
      let ps = sets.keys s.pending in
      let s₁ = (insert_loop ps s).0 in
      let ds = sets.keys s₁.deleted in
      let kept = insert_loop-Inserts ps s in
      let subset = insert_loop-subset ps s object in
      elim (Bool-cases s.is_closed) [
        | inl c ↦ ground (arith, c)
        | inr c ↦ elim (Status-cases (insert_loop ps s).1) [
          | inl e ↦ elim (Status-cases (delete_loop ds s₁).1) [
            | inl e' ↦ ground (
              arith,
              c,
              e,
              e',
              kept,
              subset,
              delete_loop-Deletes ds s₁,
              delete_loop-Spares ds s₁ object,
              sets.any-keys s₁.deleted object,
              sets.lookup-empty object,
            )
            | inr (x, e') ↦ ground (
              arith,
              c,
              e,
              e',
              kept,
              subset,
              delete_loop-Deletes ds s₁,
              delete_loop-Spares ds s₁ object,
              sets.any-keys s₁.deleted object,
            )
          ]
          | inr (x, e) ↦ ground (arith, c, e, kept, subset)
        ]
      ]
