-- ===== src/Orm/Query/Samples.antt =====
-- Queries of a session whose driver finds two rows and then breaks.
use orm_glib.Base.{ℕ, suc, ◌≡◌, refl, true, [], ◌∷◌, length, codes, none, some}
use orm_glib.Base.Int.{pos}
use orm_glib.Core.Value.{integer}
use orm_glib.Core.Error.{ok, execute}
use orm_glib.Engine.Row.{Row}
use orm_glib.Engine.Driver.{Driver, rows, sqlite}
use orm_glib.Engine.Connection.{Connection, connection_new, query_with_params}
use orm_glib.Orm.Mapper.{Mapper, mapper_new_from_serializable}
use orm_glib.Orm.Session.{SessionEnv, Session, session_new_with_connection}
use orm_glib.Orm.Session.Samples.{toy_session_env, user_class}
use orm_glib.Orm.Query.Sql.{filters_sql, filter_params, descending}
use orm_glib.Orm.Query.{Query, build_select_sql, query_all, query_one, query_one_or_none}
use orm_glib.Orm.Query.Outcomes.{Loaded, exactly_one, at_most_one, query_outcomes}
use orm_glib.Sql.Binary.{eq, is_null}

abbrev row : ℕ → Row
row n = (codes "id", integer (pos n)) ∷ []

abbrev two_rows : Driver
two_rows = record {
  Db = ℕ;
  execute = λ n _ _. (suc n, ok);
  query = λ n _ _. (n, rows (row 7 ∷ row 8 ∷ []) (some execute));
  last_insert_id = λ n. pos n;
  set_isolation_level = λ n _ _. (n, ok);
  close = λ n. n;
}

abbrev env : SessionEnv
env = record toy_session_env { driver = two_rows }

abbrev connection : Connection two_rows
unfolding connection_new
connection = connection_new 0 sqlite

abbrev session : Session env
unfolding session_new_with_connection
session = session_new_with_connection env connection []

abbrev mapper : Mapper env.names
unfolding mapper_new_from_serializable
mapper = mapper_new_from_serializable env.names 80 user_class

abbrev users : Query env
users = record {
  gtype = 80;
  mapper = some mapper;
  filters =
      record { column_name = codes "id"; op = eq; value = some (integer (pos 7)) }
      ∷ record { column_name = codes "full_name"; op = is_null; value = none }
      ∷ [];
  order_by = record { column_name = codes "id"; order = descending } ∷ [];
  limit_value = pos 0;
  offset_value = pos 0;
}

filters_text : filters_sql true users.filters ≡ codes "\"id\" = ? AND \"full_name\" IS NULL"
unfolding filters_sql
filters_text = refl

filters_bound : filter_params users.filters ≡ integer (pos 7) ∷ []
unfolding filter_params
filters_bound = refl

users_found :
    query_with_params session.connection
      (build_select_sql users mapper).0
      (build_select_sql users mapper).1
    ≡ (session.connection, rows (row 7 ∷ row 8 ∷ []) (some execute))
unfolding query_with_params connection_new session_new_with_connection
users_found = refl

query_outcomes_example :
    let (t, (objects, error)) = query_all session users in
    Loaded env 80 mapper [] (row 7 ∷ row 8 ∷ []) objects t.store
    × (length objects ≡ 2)
    × (error ≡ none)
    × (t.identity_map ≡ session.identity_map)
    × (t.attached ≡ session.attached)
    × (query_one session users ≡ (t, exactly_one objects))
    × (query_one_or_none session users ≡ (t, at_most_one objects))
unfolding session_new_with_connection
query_outcomes_example =
    query_outcomes session users mapper session.connection (row 7 ∷ row 8 ∷ []) (some execute) refl
      users_found
