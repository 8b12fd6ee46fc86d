-- ===== src/Orm/Session/Reads.antt =====
-- The reads of orm/orm-session.c, orm_session_get and orm_session_refresh, keep the invariant of a
-- session.
use orm_glib.Base.{ℕ, ◌==◌, Option, none, some, arith, [], ◌∷◌, if_rule}
use orm_glib.Core.Value.{Value}
use orm_glib.Engine.Driver.{QueryResult, rows, refused}
use orm_glib.Engine.Connection.{Connection, query_with_params}
use orm_glib.Orm.IdentityMap as Map
use orm_glib.Orm.IdentityMap.{type_none}
use orm_glib.Orm.Property.{Property}
use orm_glib.Orm.Mapper.{Mapper, Class}
use orm_glib.Orm.Session.{SessionEnv, Session, get_mapper, register_missing}
use orm_glib.Orm.Session.Access.{
  Found, session_get, refresh, refresh_loaded, refresh_by, refresh_with, refresh_known, get_mapped,
  get_with, get_by, get_loaded, created, with_mapper, select_sql,
}
use orm_glib.Orm.Session.Invariant.{IsSound, registered, registered-fields}

module _ {g : SessionEnv} where
  open g use {sets, type_of, class_of, names, mapper_table}

  registered-IsSound :
      (s : Session g) (gtype : ℕ) (c : Class)
      → IsSound s
      → IsSound (register_missing s gtype c (get_mapper s gtype))
  registered-IsSound s gtype c v =
      let (known, others) = registered s gtype c in
      let kept = registered-fields s gtype c (get_mapper s gtype) in
      record {
        mapped = λ o h. others (type_of o) (v.mapped o (ground (arith, h, kept)));
        held = λ o h. ground (arith, h, kept, v.held o);
        clean = λ o. ground (arith, kept, v.clean o);
        untracked = ground (arith, kept, v.untracked);
      }

  with_mapper-IsSound :
      (s : Session g) (gtype : ℕ) (c : Option Class) → IsSound s → IsSound (with_mapper s gtype c)
  unfolding with_mapper
  with_mapper-IsSound s gtype none v = v
  with_mapper-IsSound s gtype (some c) v = registered-IsSound s gtype c v

  loaded-IsSound :
      (s : Session g) (m : Mapper names) (gtype : ℕ) (pk : Value)
      → (r : Connection g.driver × QueryResult) → IsSound s
      → IsSound (get_loaded s m gtype pk r).0
  unfolding get_loaded created
  loaded-IsSound s m gtype pk (c, refused e) v = record {
    mapped = v.mapped;
    held = v.held;
    clean = v.clean;
    untracked = v.untracked;
  }
  loaded-IsSound s m gtype pk (c, rows [] ending) v = record {
    mapped = v.mapped;
    held = v.held;
    clean = v.clean;
    untracked = v.untracked;
  }
  loaded-IsSound s m gtype pk (c, rows (row ∷ _) ending) v =
      let object = (g.create s.store gtype).1 in
      record {
        mapped = v.mapped;
        held = λ o h. ground (arith, v.held o h, sets.lookup-insert s.attached object object o);
        clean = v.clean;
        untracked = v.untracked;
      }

  with-IsSound :
      (s : Session g) (m : Option (Mapper names)) (gtype : ℕ) (pk : Value)
      → IsSound s
      → IsSound (get_with s gtype pk m).0
  unfolding get_with get_by
  with-IsSound s none gtype pk v = v
  with-IsSound s (some m) gtype pk v = by_key m.primary_key
    where
      by_key : (p : Option Property) → IsSound (get_by s m gtype pk p).0
      by_key none = v
      by_key (some p) =
          loaded-IsSound s m gtype pk
            (query_with_params s.connection (select_sql m.table_name p.column_name) (pk ∷ [])) v

  pub get-IsSound :
      (s : Session g) (gtype : ℕ) (pk : Value) → IsSound s → IsSound (session_get s gtype pk).0
  unfolding session_get get_mapped
  get-IsSound s gtype pk v =
      if_rule (λ (r : Session g × Found). IsSound r.0) (gtype == type_none) _ _ (λ _. v)
        λ _. mapped_case (Map.get s.identity_map gtype pk)
    where
      mapped_case : (o : Option ℕ) → IsSound (get_mapped s gtype pk o).0
      mapped_case (some object) = v
      mapped_case none =
          let s' = with_mapper s gtype (class_of gtype) in
          with-IsSound s' (get_mapper s' gtype) gtype pk
            (with_mapper-IsSound s gtype (class_of gtype) v)

  pub refresh-IsSound : (s : Session g) (object : ℕ) → IsSound s → IsSound (refresh s object).0
  unfolding refresh refresh_known refresh_loaded refresh_by refresh_with
  refresh-IsSound s object v = known_case (g.class_of (g.type_of object))
    where
      loaded_case :
          (m : Mapper g.names) (r : Connection g.driver × QueryResult)
          → IsSound (refresh_loaded s m object r).0
      loaded_case m (c, refused e) = record {
        mapped = v.mapped;
        held = v.held;
        clean = v.clean;
        untracked = v.untracked;
      }
      loaded_case m (c, rows [] ending) = record {
        mapped = v.mapped;
        held = v.held;
        clean = v.clean;
        untracked = v.untracked;
      }
      loaded_case m (c, rows (row ∷ _) ending) = record {
        mapped = v.mapped;
        held = v.held;
        clean = v.clean;
        untracked = v.untracked;
      }

      key_case : (m : Mapper g.names) (p : Option Property) → IsSound (refresh_by s m object p).0
      key_case m none = v
      key_case m (some p) = loaded_case m (
          query_with_params s.connection (select_sql m.table_name p.column_name)
            (g.read s.store object p.property_name ∷ []))

      refresh_case : (m : Option (Mapper g.names)) → IsSound (refresh_with s object m).0
      refresh_case none = v
      refresh_case (some m) = key_case m m.primary_key

      known_case : (c : Option Class) → IsSound (refresh_known s object c).0
      known_case none = v
      known_case (some c) = refresh_case (get_mapper s (g.type_of object))
