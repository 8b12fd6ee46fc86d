-- ===== src/Orm/Query.antt =====
-- orm/orm-query.c: a query on the objects of a type, and what it reads through the session. The query
-- holds its session by a pointer, so the session is an argument.
pub mod Outcomes
pub mod Sql
mod Samples
use orm_glib.Base.{
  ℕ, Bool, true, false, not, List, [], ◌∷◌, ◌++◌, length, Text, codes, if◌then◌else◌, ltb, Option,
  none, some,
}
use orm_glib.Base.Int.{ℤ, pos, negsuc}
use orm_glib.Core.Value.{Value, null, get_integer}
use orm_glib.Core.Error.{Error, Status, ok, failed, mapper_error, not_found, query_failed}
use orm_glib.Glib.{lookup}
use orm_glib.Engine.Row.{Row, row_get_value}
use orm_glib.Engine.Driver.{Driver, QueryResult, rows, refused}
use orm_glib.Engine.Connection.{Connection, query_with_params, execute_with_params}
use orm_glib.Orm.Property.{Property}
use orm_glib.Orm.Mapper.{NameTable, Mapper, Class}
use orm_glib.Orm.Session.{SessionEnv, Session, get_mapper, register_missing}
use orm_glib.Orm.Session.Access.{Found, found, missing, load_row, with_mapper}
use orm_glib.Orm.Session.Sql.{quoted}
use orm_glib.Orm.Query.Sql.{
  FilterClause, SortOrder, OrderClause, filters_sql, filter_params, where_sql, orders_sql,
  order_by_sql, limit_sql, offset_sql,
}
use orm_glib.Sql.Binary.{CompareOp}

-- OrmQuery.
pub record Query (g : SessionEnv) : Type 0 where
  pub gtype : ℕ
  pub mapper : Option (Mapper g.names)
  pub filters : List FilterClause
  pub order_by : List OrderClause
  pub limit_value : ℤ
  pub offset_value : ℤ

abbrev column_of : Option Property → Text → Text
column_of none name = name
column_of (some p) name = p.column_name

abbrev mapped_column : {names : NameTable} → Option (Mapper names) → Text → Text
mapped_column none name = name
mapped_column {names} (some m) name = column_of (lookup names m.properties name) name

abbrev pub is_serializable : Option Class → Bool
is_serializable none = false
is_serializable (some _) = true

-- What orm_query_all returns: a list, which is NULL if it is empty, and the error that is set.
abbrev pub Objects : Type 0
Objects = List ℕ × Option Error

abbrev pub first_of : Objects → Found
first_of ([], e) = missing e
first_of (object ∷ _, e) = found object

-- g_set_error on an error that is set already keeps it, and warns.
abbrev pub set_error : Option Error → Error → Option Error
set_error none e = some e
set_error (some old) e = some old

abbrev pub one_of : Objects → Found
one_of ([], none) = missing (some not_found)
one_of ([], some e) = missing (set_error (some e) query_failed)
one_of (object ∷ [], e) = found object
one_of (object ∷ _ ∷ _, e) = missing (set_error e query_failed)

abbrev pub one_or_none_of : Objects → Found
one_or_none_of ([], e) = missing e
one_or_none_of (object ∷ [], e) = found object
one_or_none_of (object ∷ _ ∷ _, e) = missing (set_error e query_failed)

-- orm_result_get_scalar and orm_value_get_integer; -1 stands for a failure.
abbrev count_of : {d : Driver} → Connection d × QueryResult → Connection d × ℤ × Option Error
count_of (c, refused e) = (c, negsuc 0, e)
count_of (c, rows [] ending) = (c, pos 0, none)
count_of (c, rows (row ∷ _) ending) = elim (row_get_value row 0) [
  | none ↦ (c, pos 0, none)
  | some v ↦ (c, get_integer v, none)
]

abbrev is_positive : ℤ → Bool
is_positive (pos n) = ltb 0 n
is_positive (negsuc n) = false

module _ (g : SessionEnv) where
  open g use {names, Store, create, class_of}

  -- A new object of each row; the identity map is not asked.
  unfoldable pub row_to_object : Store → ℕ → Mapper names → Row → Store × ℕ
  unfolding load_row
  row_to_object store gtype m row =
      let (created, object) = create store gtype in
      (
        if is_serializable (class_of gtype)
            then load_row g m.property_list row object created
            else created,
        object,
      )

  -- The loop over the rows.
  unfoldable pub rows_to_objects : Store → ℕ → Mapper names → List Row → Store × List ℕ
  unfolding row_to_object
  rows_to_objects store gtype m [] = (store, [])
  rows_to_objects store gtype m (row ∷ more) =
      let (after, object) = row_to_object store gtype m row in
      let (final, objects) = rows_to_objects after gtype m more in (final, object ∷ objects)

module _ {g : SessionEnv} where
  open g use {driver, names, class_of, identity}

  -- orm_query_init, and the mapper of the type, which is registered if it is missing.
  unfoldable pub query_new : Session g → ℕ → Session g × Query g
  unfolding with_mapper
  query_new s gtype =
      let s' = with_mapper s gtype (class_of gtype) in
      (
        s',
        record {
          gtype = gtype;
          mapper = get_mapper s' gtype;
          filters = [];
          order_by = [];
          limit_value = negsuc 0;
          offset_value = pos 0;
        },
      )

  -- orm_query_filter. Without a mapper it warns and changes nothing.
  unfoldable pub query_filter : Query g → Text → CompareOp → Option Value → Query g
  query_filter q name op value = elim q.mapper [
    | none ↦ q
    | some m ↦ record q {
      filters =
          q.filters
          ++ record {
            column_name = column_of (lookup names m.properties name) name;
            op = op;
            value = value;
          }
            ∷ [];
    }
  ]

  unfoldable pub query_order_by : Query g → Text → SortOrder → Query g
  query_order_by q name order = record q {
    order_by =
        q.order_by ++ record { column_name = mapped_column q.mapper name; order = order } ∷ [];
  }

  unfoldable pub query_limit : Query g → ℤ → Query g
  query_limit q n = record q { limit_value = n }

  unfoldable pub query_offset : Query g → ℤ → Query g
  query_offset q n = record q { offset_value = n }

  unfoldable pub build_select_sql : Query g → Mapper names → Text × List Value
  unfolding filters_sql filter_params orders_sql
  build_select_sql q m =
      let text = identity.platform.int_to_text in
      (
        codes "SELECT * FROM "
            ++ (quoted m.table_name
                ++ (where_sql q.filters
                    ++ (order_by_sql q.order_by
                        ++ (limit_sql text q.limit_value ++ offset_sql text q.offset_value)))),
        filter_params q.filters,
      )

  -- orm_query_get_sql, which drops the parameters.
  unfoldable pub query_get_sql : Query g → Option Text
  query_get_sql q = elim q.mapper [ none ↦ none | some m ↦ some (build_select_sql q m).0 ]

  -- The error of the result is not asked for.
  abbrev pub objects_of :
      Session g → ℕ → Mapper names → Connection driver × QueryResult → Session g × Objects
  objects_of s gtype m (c, refused e) = (record s { connection = c }, ([], e))
  objects_of s gtype m (c, rows xs ending) =
      let (store, objects) = rows_to_objects g s.store gtype m xs in
      (record s { connection = c; store = store }, (objects, none))

  unfoldable pub query_all : Session g → Query g → Session g × Objects
  query_all s q = elim q.mapper [
    | none ↦ (s, ([], some mapper_error))
    | some m ↦
        (let (sql, params) = build_select_sql q m in
          objects_of s q.gtype m (query_with_params s.connection sql params))
  ]

  -- orm_query_first: the limit is 1 for this call.
  unfoldable pub query_first : Session g → Query g → Session g × Found
  unfolding query_all
  query_first s q =
      let (t, objects) = query_all s (record q { limit_value = pos 1 }) in (t, first_of objects)

  unfoldable pub query_one : Session g → Query g → Session g × Found
  unfolding query_all
  query_one s q = let (t, objects) = query_all s q in (t, one_of objects)

  unfoldable pub query_one_or_none : Session g → Query g → Session g × Found
  unfolding query_all
  query_one_or_none s q = let (t, objects) = query_all s q in (t, one_or_none_of objects)

  unfoldable pub query_count : Session g → Query g → Session g × ℤ × Option Error
  unfolding filters_sql filter_params query_with_params row_get_value get_integer
  query_count s q = elim q.mapper [
    | none ↦ (s, negsuc 0, some mapper_error)
    | some m ↦
        (let (c, n, e) = count_of (
            query_with_params s.connection
              (codes "SELECT COUNT(*) FROM " ++ (quoted m.table_name ++ where_sql q.filters))
              (filter_params q.filters)) in
          (record s { connection = c }, n, e))
  ]

  unfoldable pub query_exists : Session g → Query g → Session g × Bool
  unfolding query_count
  query_exists s q = let (t, n, e) = query_count s q in (t, is_positive n)

  abbrev deleted_of : Session g → Connection driver × Status → Session g × ℤ × Option Error
  deleted_of s (c, ok) = (record s { connection = c }, pos 0, none)
  deleted_of s (c, failed e) = (record s { connection = c }, negsuc 0, e)

  -- orm_query_delete: 0 stands for success.
  unfoldable pub query_delete : Session g → Query g → Session g × ℤ × Option Error
  unfolding filters_sql filter_params execute_with_params
  query_delete s q = elim q.mapper [
    | none ↦ (s, negsuc 0, some mapper_error)
    | some m ↦ deleted_of s (
        execute_with_params s.connection
          (codes "DELETE FROM " ++ (quoted m.table_name ++ where_sql q.filters))
          (filter_params q.filters))
  ]
