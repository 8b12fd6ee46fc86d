-- ===== src/Orm/Session/Identity.antt =====
-- orm_session_get of orm/orm-session.c keeps one object for each row.
use orm_glib.Base.{
  ℕ, ◌≡◌, ◌≢◌, ◌==◌, Option, none, some, arith, Option-cases, if_rule, subst, inl, inr, [], ◌∷◌,
}
use orm_glib.Core.Value.{Value}
use orm_glib.Engine.Row.{Row}
use orm_glib.Engine.Driver.{QueryResult, rows, refused}
use orm_glib.Engine.Connection.{Connection, query_with_params}
use orm_glib.Orm.IdentityMap as Map
use orm_glib.Orm.IdentityMap.{type_none}
use orm_glib.Orm.IdentityMap.Keys.{IsKeyed, keyed_refl}
use orm_glib.Orm.IdentityMap.Laws.{get-add}
use orm_glib.Orm.Mapper.{Mapper}
use orm_glib.Orm.Session.{SessionEnv, Session, get_mapper}
use orm_glib.Orm.Session.Access.{
  Found, found, missing, session_get, get_mapped, get_with, get_by, get_loaded, created,
  with_mapper, select_sql,
}

-- What a get gives, so that the next one for the row finds the same object in the map.
abbrev Remembers : {g : SessionEnv} → ℕ → Value → Session g × Found → Type 0
Remembers gtype pk (s, found object) = Map.get s.identity_map gtype pk ≡ some object
Remembers gtype pk (s, missing e) = Unit {0}

module _ {g : SessionEnv} (gtype : ℕ) (pk : Value) (keyed : IsKeyed pk)
    (typed : gtype ≢ type_none) where
  created-Remembers :
      (s : Session g) (m : Mapper g.names) (row : Row)
      → Remembers gtype pk (created s m gtype pk row)
  unfolding created
  created-Remembers s m row = ground (
    arith,
    get-add s.identity_map gtype pk (g.create s.store gtype).1 gtype pk typed,
    keyed_refl g.identity.platform g.identity.laws pk keyed,
  )

  loaded-Remembers :
      (s : Session g) (m : Mapper g.names) (r : Connection g.driver × QueryResult)
      → Remembers gtype pk (get_loaded s m gtype pk r)
  unfolding get_loaded created
  loaded-Remembers s m (c, refused e) = tt
  loaded-Remembers s m (c, rows [] ending) = tt
  loaded-Remembers s m (c, rows (row ∷ _) ending) =
      created-Remembers (record s { connection = c }) m row

  with-Remembers :
      (s : Session g) (m : Option (Mapper g.names)) → Remembers gtype pk (get_with s gtype pk m)
  unfolding get_with get_by
  with-Remembers s none = tt
  with-Remembers s (some m) = elim (Option-cases m.primary_key) [
    | inl n ↦ rw n tt
    | inr (p, k) ↦ rw k (
        loaded-Remembers s m
          (query_with_params s.connection (select_sql m.table_name p.column_name) (pk ∷ [])))
  ]

  get-Remembers : (s : Session g) → Remembers gtype pk (session_get s gtype pk)
  unfolding session_get get_mapped
  get-Remembers s =
      if_rule (Remembers gtype pk) (gtype == type_none) _ _ (λ e. tt)
        λ e. elim (Option-cases (Map.get s.identity_map gtype pk)) [
          | inl n ↦ rw n (
              let s' = with_mapper s gtype (g.class_of gtype) in
              with-Remembers s' (get_mapper s' gtype))
          | inr (object, k) ↦ rw k k
        ]

  -- For a type other than G_TYPE_NONE and a primary key that is an integer, a string or NULL: if a
  -- get gives an object, from the map or from the database, then getting the row again gives the
  -- same object, and changes nothing, without another statement.
  pub get-get :
      (s s' : Session g) (object : ℕ)
      → session_get s gtype pk ≡ (s', found object)
      → session_get s' gtype pk ≡ (s', found object)
  unfolding session_get get_mapped
  get-get s s' object e =
      let remembered = subst (Remembers gtype pk) e (get-Remembers s) in
      ground (arith, typed, remembered)
