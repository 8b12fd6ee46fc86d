-- ===== src/Sql/Statement/Fits.antt =====
-- When a statement of sql/ loses no value: the conditions on its names and expressions.
use orm_glib.Base.{All, Text}
use orm_glib.Sql.Binary.{Expression}
use orm_glib.Sql.Statement.{JoinInfo, OrderInfo, Select, Insert, Update, Delete}
use orm_glib.Sql.Statement.Placeholders.{IsPlain, IsPlainOption, IsPlainTable, IsNonempty, Unmarked}

abbrev pub JoinFits : JoinInfo → Type 0
JoinFits j = Unmarked j.table × IsPlain j.condition

abbrev pub ColumnFits : Text × Expression → Type 0
ColumnFits c = Unmarked c.0 × IsPlain c.1

-- The names of a statement hold no question mark, no value is lost in its expressions, and what it
-- cannot do without is given.
pub record SelectFits (s : Select) : Type 0 where
  pub from_table : IsPlainTable s.from_table
  pub columns : All IsPlain s.columns
  pub where_clause : IsPlainOption s.where_clause
  pub order_by : All (λ (o : OrderInfo). Unmarked o.column) s.order_by
  pub group_by : All Unmarked s.group_by
  pub having_clause : IsPlainOption s.having_clause
  pub joins : All JoinFits s.joins

pub record InsertFits (i : Insert) : Type 0 where
  pub table_name : Unmarked i.table_name
  pub is_given : IsNonempty i.columns
  pub columns : All ColumnFits i.columns
  pub returning : All Unmarked i.returning

pub record UpdateFits (u : Update) : Type 0 where
  pub table_name : Unmarked u.table_name
  pub is_given : IsNonempty u.set_columns
  pub set_columns : All ColumnFits u.set_columns
  pub where_clause : IsPlainOption u.where_clause
  pub returning : All Unmarked u.returning

pub record DeleteFits (s : Delete) : Type 0 where
  pub table_name : Unmarked s.table_name
  pub where_clause : IsPlainOption s.where_clause
  pub returning : All Unmarked s.returning
