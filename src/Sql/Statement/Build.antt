-- ===== src/Sql/Statement/Build.antt =====
-- sql/orm-select.c, orm-insert.c, orm-update.c and orm-delete.c: the functions that build a statement.
-- Those that take a name make an expression of its class and go on as those that take an expression.
use orm_glib.Base.{Bool, true, false, [], ◌∷◌, ◌++◌, List, Text, Option, none, some}
use orm_glib.Base.Int.{ℤ}
use orm_glib.Sql.Binary.{Expression, logical, logical_and, logical_or}
use orm_glib.Sql.Statement.{JoinType, OrderDirection, Select, Insert, Update, Delete}

-- orm_select_and_where and orm_select_or_where; those of UPDATE and DELETE are alike.
unfoldable pub and_where : Option Expression → Expression → Option Expression
and_where none condition = some condition
and_where (some e) condition = some (logical e logical_and condition)

unfoldable pub or_where : Option Expression → Expression → Option Expression
or_where none condition = some condition
or_where (some e) condition = some (logical e logical_or condition)

unfoldable pub select_new : Select
select_new = record {
  from_table = none;
  columns = [];
  where_clause = none;
  order_by = [];
  group_by = [];
  having_clause = none;
  joins = [];
  limit_value = none;
  offset_value = none;
  use_distinct = false;
}

unfoldable pub select_from_clause : Select → Expression → Select
select_from_clause s table = record s { from_table = some table }

unfoldable pub select_column_expr : Select → Expression → Select
select_column_expr s e = record s { columns = s.columns ++ e ∷ [] }

unfoldable pub select_where : Select → Expression → Select
select_where s condition = record s { where_clause = some condition }

unfoldable pub select_and_where : Select → Expression → Select
unfolding and_where
select_and_where s condition = record s { where_clause = and_where s.where_clause condition }

unfoldable pub select_or_where : Select → Expression → Select
unfolding or_where
select_or_where s condition = record s { where_clause = or_where s.where_clause condition }

unfoldable pub select_order_by : Select → Text → OrderDirection → Select
select_order_by s column direction = record s {
  order_by = s.order_by ++ record { column = column; direction = direction } ∷ [];
}

unfoldable pub select_limit : Select → ℤ → Select
select_limit s n = record s { limit_value = some n }

unfoldable pub select_offset : Select → ℤ → Select
select_offset s n = record s { offset_value = some n }

unfoldable pub select_distinct : Select → Bool → Select
select_distinct s distinct = record s { use_distinct = distinct }

unfoldable pub select_group_by : Select → Text → Select
select_group_by s column = record s { group_by = s.group_by ++ column ∷ [] }

unfoldable pub select_having : Select → Expression → Select
select_having s condition = record s { having_clause = some condition }

unfoldable pub select_join : Select → Text → Expression → JoinType → Select
select_join s table condition join_type = record s {
  joins = s.joins ++ record { table = table; condition = condition; join_type = join_type } ∷ [];
}

unfoldable pub insert_new : Text → Insert
insert_new table = record {
  table_name = table;
  columns = [];
  returning = [];
  returning_all = false;
}

unfoldable pub insert_column_expr : Insert → Text → Expression → Insert
insert_column_expr i column e = record i { columns = i.columns ++ (column, e) ∷ [] }

unfoldable pub insert_returning : Insert → List Text → Insert
insert_returning i columns = record i { returning = i.returning ++ columns }

unfoldable pub insert_returning_all : Insert → Insert
insert_returning_all i = record i { returning_all = true }

unfoldable pub update_new : Text → Update
update_new table = record {
  table_name = table;
  set_columns = [];
  where_clause = none;
  returning = [];
  returning_all = false;
}

unfoldable pub update_set_expr : Update → Text → Expression → Update
update_set_expr u column e = record u { set_columns = u.set_columns ++ (column, e) ∷ [] }

unfoldable pub update_where : Update → Expression → Update
update_where u condition = record u { where_clause = some condition }

unfoldable pub update_and_where : Update → Expression → Update
unfolding and_where
update_and_where u condition = record u { where_clause = and_where u.where_clause condition }

unfoldable pub update_returning : Update → List Text → Update
update_returning u columns = record u { returning = u.returning ++ columns }

unfoldable pub update_returning_all : Update → Update
update_returning_all u = record u { returning_all = true }

unfoldable pub delete_new : Text → Delete
delete_new table = record {
  table_name = table;
  where_clause = none;
  returning = [];
  returning_all = false;
}

unfoldable pub delete_where : Delete → Expression → Delete
delete_where s condition = record s { where_clause = some condition }

unfoldable pub delete_and_where : Delete → Expression → Delete
unfolding and_where
delete_and_where s condition = record s { where_clause = and_where s.where_clause condition }

unfoldable pub delete_returning : Delete → List Text → Delete
delete_returning s columns = record s { returning = s.returning ++ columns }

unfoldable pub delete_returning_all : Delete → Delete
delete_returning_all s = record s { returning_all = true }
