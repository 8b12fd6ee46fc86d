-- ===== src/Orm/Session/Loops.antt =====
-- The two loops of orm_session_flush, seen from the sets.
use orm_glib.Base.{
  ℕ, true, false, ◌≡◌, if◌then◌else◌, ◌==◌, Option, arith, Option-cases, inl, inr, refl, List, [],
  ◌∷◌, any, is_some, ◌⊎◌,
}
use orm_glib.Core.Error.{Error, Status, ok, failed}
use orm_glib.Glib.{contains}
use orm_glib.Engine.Connection.{execute_with_params}
use orm_glib.Orm.Session.{SessionEnv, Session, get_mapper}
use orm_glib.Orm.Session.Sql.{build_insert_sql, build_delete_sql}
use orm_glib.Orm.Session.Flush.{insert_one, delete_one, insert_loop, delete_loop}

pub Status-cases : (s : Status) → (s ≡ ok) ⊎ ((e : Option Error) × (s ≡ failed e))
Status-cases ok = inl refl
Status-cases (failed e) = inr (e, refl)

-- The first loop changes none of these.
pub record Inserts {g : SessionEnv} (s s' : Session g) : Type 0 where
  pub deleted : s'.deleted ≡ s.deleted
  pub attached : s'.attached ≡ s.attached
  pub dirty : s'.dirty ≡ s.dirty
  pub mappers : s'.mappers ≡ s.mappers
  pub transaction : s'.transaction ≡ s.transaction
  pub is_closed : s'.is_closed ≡ s.is_closed

-- The second loop changes none of these.
pub record Deletes {g : SessionEnv} (s s' : Session g) : Type 0 where
  pub pending : s'.pending ≡ s.pending
  pub dirty : s'.dirty ≡ s.dirty
  pub mappers : s'.mappers ≡ s.mappers
  pub transaction : s'.transaction ≡ s.transaction
  pub is_closed : s'.is_closed ≡ s.is_closed

module _ {g : SessionEnv} where
  open g use {sets, type_of}

  insert_one-Inserts : (s : Session g) (object : ℕ) → Inserts s (insert_one s object).0
  unfolding insert_one
  insert_one-Inserts s object = elim (Option-cases (get_mapper s (type_of object))) [
    | inl n ↦ ground (arith, n)
    | inr (m, k) ↦
        elim (Status-cases
          (execute_with_params s.connection (build_insert_sql g s.store object m).0
            (build_insert_sql g s.store object m).1).1) [
              | inl e ↦ elim (Option-cases m.primary_key) [
                | inl n' ↦ ground (arith, k, e, n')
                | inr (p, k') ↦ ground (arith, k, e, k')
              ]
              | inr (x, e) ↦ ground (arith, k, e)
            ]
  ]

  insert_one-pending :
      (s : Session g) (object other : ℕ)
      → is_some (get_mapper s (type_of object)) ≡ true
      → (insert_one s object).1 ≡ ok
      → contains sets (insert_one s object).0.pending other
        ≡ (if object == other then false else contains sets s.pending other)
  unfolding insert_one
  insert_one-pending s object other mapped fine =
      elim (Option-cases (get_mapper s (type_of object))) [
        | inl n ↦ ground (arith, n)
        | inr (m, k) ↦
            elim (Status-cases
              (execute_with_params s.connection (build_insert_sql g s.store object m).0
                (build_insert_sql g s.store object m).1).1) [
                  | inl e ↦ elim (Option-cases m.primary_key) [
                    | inl n' ↦ ground (arith, k, e, n', sets.lookup-remove s.pending object other)
                    | inr (p, k') ↦
                        ground (arith, k, e, k', sets.lookup-remove s.pending object other)
                  ]
                  | inr (x, e) ↦ ground (arith, k, e)
                ]
      ]

  delete_one-Deletes : (s : Session g) (object : ℕ) → Deletes s (delete_one s object).0
  unfolding delete_one
  delete_one-Deletes s object = elim (Option-cases (get_mapper s (type_of object))) [
    | inl n ↦ ground (arith, n)
    | inr (m, k) ↦ elim (Option-cases (build_delete_sql g s.store object m)) [
      | inl n ↦ ground (arith, k, n)
      | inr (sql, k') ↦ elim (Status-cases (execute_with_params s.connection sql.0 sql.1).1) [
        | inl e ↦ ground (arith, k, k', e)
        | inr (x, e) ↦ ground (arith, k, k', e)
      ]
    ]
  ]

  delete_one-sets :
      (s : Session g) (object other : ℕ)
      → is_some (get_mapper s (type_of object)) ≡ true
      → (delete_one s object).1 ≡ ok
      → (contains sets (delete_one s object).0.deleted other
          ≡ (if object == other then false else contains sets s.deleted other))
        × (contains sets (delete_one s object).0.attached other
            ≡ (if object == other then false else contains sets s.attached other))
  unfolding delete_one
  delete_one-sets s object other mapped fine = elim (Option-cases (get_mapper s (type_of object))) [
    | inl n ↦ ground (arith, n)
    | inr (m, k) ↦ elim (Option-cases (build_delete_sql g s.store object m)) [
      | inl n ↦ ground (
        arith,
        k,
        n,
        sets.lookup-remove s.deleted object other,
        sets.lookup-remove s.attached object other,
      )
      | inr (sql, k') ↦ elim (Status-cases (execute_with_params s.connection sql.0 sql.1).1) [
        | inl e ↦ ground (
          arith,
          k,
          k',
          e,
          sets.lookup-remove s.deleted object other,
          sets.lookup-remove s.attached object other,
        )
        | inr (x, e) ↦ ground (arith, k, k', e)
      ]
    ]
  ]

  -- Every object of the list has a mapper.
  abbrev pub AllMapped : Session g → List ℕ → Type 0
  AllMapped s objects =
      (object : ℕ)
      → any (λ k. k == object) objects ≡ true
      → is_some (get_mapper s (type_of object)) ≡ true

  -- The loops, by the way they end.
  pub insert_loop-Inserts : (objects : List ℕ) (s : Session g) → Inserts s (insert_loop objects s).0
  unfolding insert_loop
  insert_loop-Inserts [] s = ground arith
  insert_loop-Inserts (object ∷ objects) s = elim (Status-cases (insert_one s object).1) [
    | inl e ↦
        ground (
          arith,
          e,
          insert_one-Inserts s object,
          insert_loop-Inserts objects (insert_one s object).0,
        )
    | inr (x, e) ↦ ground (arith, e, insert_one-Inserts s object)
  ]

  pub insert_loop-pending :
      (objects : List ℕ) (s : Session g) (other : ℕ)
      → AllMapped s objects
      → (insert_loop objects s).1 ≡ ok
      → contains sets (insert_loop objects s).0.pending other
        ≡ (if any (λ k. k == other) objects then false else contains sets s.pending other)
  unfolding insert_loop
  insert_loop-pending [] s other mapped fine = refl
  insert_loop-pending (object ∷ objects) s other mapped fine =
      elim (Status-cases (insert_one s object).1) [
        | inl e ↦
            let rest : AllMapped (insert_one s object).0 objects =
              λ o h. ground (arith, insert_one-Inserts s object, mapped o) in
            ground (
              arith,
              e,
              insert_one-pending s object other (mapped object (ground arith)),
              insert_loop-pending objects (insert_one s object).0 other rest,
            )
        | inr (x, e) ↦ ground (arith, e)
      ]

  pub delete_loop-Deletes : (objects : List ℕ) (s : Session g) → Deletes s (delete_loop objects s).0
  unfolding delete_loop
  delete_loop-Deletes [] s = ground arith
  delete_loop-Deletes (object ∷ objects) s = elim (Status-cases (delete_one s object).1) [
    | inl e ↦
        ground (
          arith,
          e,
          delete_one-Deletes s object,
          delete_loop-Deletes objects (delete_one s object).0,
        )
    | inr (x, e) ↦ ground (arith, e, delete_one-Deletes s object)
  ]

  pub delete_loop-sets :
      (objects : List ℕ) (s : Session g) (other : ℕ)
      → AllMapped s objects
      → (delete_loop objects s).1 ≡ ok
      → let s' = (delete_loop objects s).0 in
        let listed = any (λ k. k == other) objects in
        (contains sets s'.deleted other ≡ (if listed then false else contains sets s.deleted other))
        × (contains sets s'.attached other
            ≡ (if listed then false else contains sets s.attached other))
  unfolding delete_loop
  delete_loop-sets [] s other mapped fine = (refl, refl)
  delete_loop-sets (object ∷ objects) s other mapped fine =
      elim (Status-cases (delete_one s object).1) [
        | inl e ↦
            let rest : AllMapped (delete_one s object).0 objects =
              λ o h. ground (arith, delete_one-Deletes s object, mapped o) in
            ground (
              arith,
              e,
              delete_one-sets s object other (mapped object (ground arith)),
              delete_loop-sets objects (delete_one s object).0 other rest,
            )
        | inr (x, e) ↦ ground (arith, e)
      ]

  insert_one-subset :
      (s : Session g) (object other : ℕ)
      → contains sets (insert_one s object).0.pending other ≡ true
      → contains sets s.pending other ≡ true
  unfolding insert_one
  insert_one-subset s object other h = elim (Option-cases (get_mapper s (type_of object))) [
    | inl n ↦ ground (arith, n)
    | inr (m, k) ↦
        elim (Status-cases
          (execute_with_params s.connection (build_insert_sql g s.store object m).0
            (build_insert_sql g s.store object m).1).1) [
              | inl e ↦ elim (Option-cases m.primary_key) [
                | inl n' ↦ ground (arith, k, e, n', sets.lookup-remove s.pending object other)
                | inr (p, k') ↦ ground (arith, k, e, k', sets.lookup-remove s.pending object other)
              ]
              | inr (x, e) ↦ ground (arith, k, e)
            ]
  ]

  -- No object becomes pending.
  pub insert_loop-subset :
      (objects : List ℕ) (s : Session g) (other : ℕ)
      → contains sets (insert_loop objects s).0.pending other ≡ true
      → contains sets s.pending other ≡ true
  unfolding insert_loop
  insert_loop-subset [] s other h = h
  insert_loop-subset (object ∷ objects) s other h = elim (Status-cases (insert_one s object).1) [
    | inl e ↦ ground (
      arith,
      e,
      insert_one-subset s object other,
      insert_loop-subset objects (insert_one s object).0 other,
    )
    | inr (x, e) ↦ ground (arith, e, insert_one-subset s object other)
  ]
