-- ===== src/Orm/Session/Access.antt =====
-- orm/orm-session.c: orm_session_get and orm_session_refresh, which read an object's row.
use orm_glib.Base.{ℕ, List, [], ◌∷◌, ◌++◌, Text, codes, if◌then◌else◌, Option, none, some, ◌==◌}
use orm_glib.Core.Value.{Value}
use orm_glib.Core.Error.{Error, Status, ok, failed}
use orm_glib.Engine.Row.{Row, row_get_value_by_name}
use orm_glib.Engine.Driver.{QueryResult, rows, refused}
use orm_glib.Engine.Connection.{Connection, query_with_params}
use orm_glib.Orm.IdentityMap as Map
use orm_glib.Orm.IdentityMap.{type_none}
use orm_glib.Orm.Property.{Property}
use orm_glib.Orm.Mapper.{Mapper, Class, mapper_new_from_serializable}
use orm_glib.Orm.Session.Sql.{quoted}
use orm_glib.Orm.Session.{SessionEnv, Session, get_mapper, register_mapper, register_missing}

-- The object that is returned, or NULL with the error that was set.
pub data Found : Type 0 where
  found : ℕ → Found
  missing : Option Error → Found

abbrev pub select_sql : Text → Text → Text
select_sql table column =
    codes "SELECT * FROM " ++ quoted table ++ codes " WHERE " ++ quoted column ++ codes " = ?"

module _ (g : SessionEnv) where
  open g use {Store, write}

  abbrev write_found : Store → ℕ → Text → Option Value → Store
  write_found store object name none = store
  write_found store object name (some v) = write store object name v

  -- The loop over the properties, with the row.
  unfoldable pub load_row : List Property → Row → ℕ → Store → Store
  unfolding row_get_value_by_name
  load_row [] row object store = store
  load_row (p ∷ ps) row object store =
      load_row ps row object
        (write_found store object p.property_name (row_get_value_by_name row p.column_name))

module _ {g : SessionEnv} where
  open g use {driver, names, sets, type_of, class_of, create, read}

  unfoldable pub refresh_loaded :
      Session g → Mapper names → ℕ → Connection driver × QueryResult → Session g × Status
  unfolding load_row
  refresh_loaded s m object (c, refused e) = (record s { connection = c }, failed e)
  refresh_loaded s m object (c, rows [] ending) =
      (record s { connection = c }, failed (some Error.not_found))
  refresh_loaded s m object (c, rows (row ∷ _) ending) =
      (record s { connection = c; store = load_row g m.property_list row object s.store }, ok)

  unfoldable pub refresh_by : Session g → Mapper names → ℕ → Option Property → Session g × Status
  unfolding query_with_params load_row refresh_loaded
  refresh_by s m object none = (s, failed (some Error.mapper_error))
  refresh_by s m object (some p) = refresh_loaded s m object (
      query_with_params s.connection (select_sql m.table_name p.column_name)
        (read s.store object p.property_name ∷ []))

  unfoldable pub refresh_with : Session g → ℕ → Option (Mapper names) → Session g × Status
  unfolding query_with_params load_row refresh_by
  refresh_with s object none = (s, failed (some Error.mapper_error))
  refresh_with s object (some m) = refresh_by s m object m.primary_key

  -- An object whose type is not serializable is refused without an error.
  unfoldable pub refresh_known : Session g → ℕ → Option Class → Session g × Status
  unfolding query_with_params load_row refresh_with
  refresh_known s object none = (s, failed none)
  refresh_known s object (some c) = refresh_with s object (get_mapper s (type_of object))

  unfoldable pub refresh : Session g → ℕ → Session g × Status
  unfolding query_with_params load_row refresh_known
  refresh s object = refresh_known s object (class_of (type_of object))

  -- The new object enters the identity map and the attached set.
  unfoldable pub created : Session g → Mapper names → ℕ → Value → Row → Session g × Found
  unfolding load_row Map.add
  created s m gtype pk row =
      let (store, object) = create s.store gtype in
      (
        record s {
          store = load_row g m.property_list row object store;
          identity_map = Map.add s.identity_map gtype pk object;
          attached = sets.insert s.attached object object;
        },
        found object,
      )

  unfoldable pub get_loaded :
      Session g → Mapper names → ℕ → Value → Connection driver × QueryResult → Session g × Found
  unfolding load_row Map.add created
  get_loaded s m gtype pk (c, refused e) = (record s { connection = c }, missing e)
  get_loaded s m gtype pk (c, rows [] ending) = (record s { connection = c }, missing none)
  get_loaded s m gtype pk (c, rows (row ∷ _) ending) =
      created (record s { connection = c }) m gtype pk row

  unfoldable pub get_by : Session g → Mapper names → ℕ → Value → Option Property → Session g × Found
  unfolding query_with_params load_row Map.add get_loaded
  get_by s m gtype pk none = (s, missing (some Error.mapper_error))
  get_by s m gtype pk (some p) =
      get_loaded s m gtype pk
        (query_with_params s.connection (select_sql m.table_name p.column_name) (pk ∷ []))

  unfoldable pub get_with : Session g → ℕ → Value → Option (Mapper names) → Session g × Found
  unfolding query_with_params load_row Map.add get_by
  get_with s gtype pk none = (s, missing (some Error.mapper_error))
  get_with s gtype pk (some m) = get_by s m gtype pk m.primary_key

  -- The mapper of a serializable type is registered if it is missing.
  unfoldable pub with_mapper : Session g → ℕ → Option Class → Session g
  unfolding register_mapper mapper_new_from_serializable register_missing
  with_mapper s gtype none = s
  with_mapper s gtype (some c) = register_missing s gtype c (get_mapper s gtype)

  unfoldable pub get_mapped : Session g → ℕ → Value → Option ℕ → Session g × Found
  unfolding query_with_params load_row Map.add register_mapper mapper_new_from_serializable get_with
      with_mapper
  get_mapped s gtype pk (some object) = (s, found object)
  get_mapped s gtype pk none =
      let s' = with_mapper s gtype (class_of gtype) in get_with s' gtype pk (get_mapper s' gtype)

  unfoldable pub session_get : Session g → ℕ → Value → Session g × Found
  unfolding query_with_params load_row Map.add Map.get register_mapper mapper_new_from_serializable
      get_mapped
  session_get s gtype pk =
      if gtype == type_none
      then (s, missing none)
      else get_mapped s gtype pk (Map.get s.identity_map gtype pk)
