-- ===== src/Orm/Session/Sends.antt =====
-- The statements that orm_session_flush of orm/orm-session.c sends.
use orm_glib.Base.{
  Option, none, some, ℕ, ◌≡◌, refl, subst, List, [], ◌∷◌, ◌++◌, Text, codes, ◌⊎◌, Option-cases, inl,
  inr, if_rule, arith,
}
use orm_glib.Core.Value.{Value}
use orm_glib.Core.Error.{Status}
use orm_glib.Engine.Driver.{Driver}
use orm_glib.Engine.Connection.{Connection, execute_with_params}
use orm_glib.Orm.Mapper.{Mapper}
use orm_glib.Orm.Session.{SessionEnv, Session, get_mapper}
use orm_glib.Orm.Session.Sql.{build_insert_sql, build_delete_sql}
use orm_glib.Orm.Session.Flush.{
  insert_one, delete_one, insert_loop, delete_loop, then_rest, clear_dirty, flush,
}
use orm_glib.Orm.Session.Loops.{Status-cases}
use orm_glib.Orm.Session.Soundness.{then_rest_rule}

-- The text is an INSERT or a DELETE.
abbrev pub IsWrite : Text → Type 0
IsWrite sql =
    (rest : Text) × ((sql ≡ codes "INSERT INTO " ++ rest) ⊎ (sql ≡ codes "DELETE FROM " ++ rest))

abbrev IsWriteOrNone : Option (Text × List Value) → Type 0
IsWriteOrNone none = Unit {0}
IsWriteOrNone (some sql) = IsWrite sql.0

-- A connection that such statements, and nothing else, bring about.
pub data Sent {d : Driver} (c : Connection d) : Connection d → Type 0 where
  nothing : Sent c c
  then_sends :
      (c' : Connection d) (sql : Text) (params : List Value)
      → Sent c c'
      → IsWrite sql
      → Sent c (execute_with_params c' sql params).0

module _ {g : SessionEnv} (start : Connection g.driver) where
  open g use {sets, type_of}

  -- Such statements have brought the session's connection from `start` to where it stands.
  abbrev Follows : Session g → Type 0
  Follows s = Sent start s.connection

  insert_text :
      (s : Session g) (object : ℕ) (m : Mapper g.names)
      → IsWrite (build_insert_sql g s.store object m).0
  unfolding build_insert_sql
  insert_text s object m = (_, inl refl)

  delete_text :
      (s : Session g) (object : ℕ) (m : Mapper g.names)
      → IsWriteOrNone (build_delete_sql g s.store object m)
  unfolding build_delete_sql
  delete_text s object m = elim (Option-cases m.primary_key) [
    | inl n ↦ rw n tt
    | inr (p, k) ↦ rw k (_, inr refl)
  ]

  insert_one-Sent : (s : Session g) (object : ℕ) → Follows s → Follows (insert_one s object).0
  unfolding insert_one
  insert_one-Sent s object h = elim (Option-cases (get_mapper s (type_of object))) [
    | inl n ↦ rw n h
    | inr (m, k) ↦
        (let (sql, params) = build_insert_sql g s.store object m in
          let sent = then_sends s.connection sql params h (insert_text s object m) in
          elim (Status-cases (execute_with_params s.connection sql params).1) [
            | inl e ↦ elim (Option-cases m.primary_key) [
              | inl n ↦ subst (λ c. Sent start c) (ground (arith, k, e, n)) sent
              | inr (p, k') ↦ subst (λ c. Sent start c) (ground (arith, k, e, k')) sent
            ]
            | inr (x, e) ↦ subst (λ c. Sent start c) (ground (arith, k, e)) sent
          ])
  ]

  delete_one-Sent : (s : Session g) (object : ℕ) → Follows s → Follows (delete_one s object).0
  unfolding delete_one
  delete_one-Sent s object h = elim (Option-cases (get_mapper s (type_of object))) [
    | inl n ↦ rw n h
    | inr (m, k) ↦ elim (Option-cases (build_delete_sql g s.store object m)) [
      | inl n ↦ subst (λ c. Sent start c) (ground (arith, k, n)) h
      | inr (sql, k') ↦
          (let sent =
              then_sends s.connection sql.0 sql.1 h
                (subst IsWriteOrNone k' (delete_text s object m)) in
            elim (Status-cases (execute_with_params s.connection sql.0 sql.1).1) [
              | inl e ↦ subst (λ c. Sent start c) (ground (arith, k, k', e)) sent
              | inr (x, e) ↦ subst (λ c. Sent start c) (ground (arith, k, k', e)) sent
            ])
    ]
  ]

  insert_loop-Sent :
      (objects : List ℕ) (s : Session g) → Follows s → Follows (insert_loop objects s).0
  unfolding insert_loop
  insert_loop-Sent [] s h = h
  insert_loop-Sent (object ∷ objects) s h =
      let sent = insert_one-Sent s object h in
      then_rest_rule Follows (λ s'. insert_loop objects s') (insert_one s object) sent
        λ _. insert_loop-Sent objects (insert_one s object).0 sent

  delete_loop-Sent :
      (objects : List ℕ) (s : Session g) → Follows s → Follows (delete_loop objects s).0
  unfolding delete_loop
  delete_loop-Sent [] s h = h
  delete_loop-Sent (object ∷ objects) s h =
      let sent = delete_one-Sent s object h in
      then_rest_rule Follows (λ s'. delete_loop objects s') (delete_one s object) sent
        λ _. delete_loop-Sent objects (delete_one s object).0 sent

  flushed-Sent : (s : Session g) → Follows s → Follows (flush s).0
  unfolding flush
  flushed-Sent s h =
      let s₁ = (insert_loop (sets.keys s.pending) s).0 in
      let next = λ (s : Session g). then_rest clear_dirty (delete_loop (sets.keys s.deleted) s) in
      let sent = insert_loop-Sent (sets.keys s.pending) s h in
      let deleted = delete_loop-Sent (sets.keys s₁.deleted) s₁ sent in
      if_rule (λ (r : Session g × Status). Follows r.0) s.is_closed _ _ (λ _. h)
        λ _. then_rest_rule Follows next (insert_loop (sets.keys s.pending) s) sent λ _.
          then_rest_rule Follows clear_dirty (delete_loop (sets.keys s₁.deleted) s₁) deleted
            λ _. deleted

-- A flush sends INSERT and DELETE statements and nothing else.
pub flush-Sent : {g : SessionEnv} (s : Session g) → Sent s.connection (flush s).0.connection
flush-Sent s = flushed-Sent s.connection s nothing
