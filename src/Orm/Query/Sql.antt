-- ===== src/Orm/Query/Sql.antt =====
-- orm/orm-query.c: the filters and orders of a query, and their text.
use orm_glib.Base.{
  Bool, true, false, List, [], ◌∷◌, ◌++◌, Text, codes, if◌then◌else◌, ltb, Option, none, some,
}
use orm_glib.Base.Int.{ℤ, pos, negsuc}
use orm_glib.Core.Value.{Value, null}
use orm_glib.Orm.Session.Sql.{quoted, separator}
use orm_glib.Sql.Binary.{CompareOp, eq, ne, lt, le, gt, ge, like, inside, is_null, is_not_null}

-- FilterClause; a value that is NULL is bound as NULL.
pub record FilterClause : Type 0 where
  pub column_name : Text
  pub op : CompareOp
  pub value : Option Value

-- OrmSortOrder.
pub data SortOrder : Type 0 where
  ascending descending : SortOrder

-- OrderClause.
pub record OrderClause : Type 0 where
  pub column_name : Text
  pub order : SortOrder

unfoldable pub filter_op_to_sql : CompareOp → Text
filter_op_to_sql eq = codes "="
filter_op_to_sql ne = codes "!="
filter_op_to_sql lt = codes "<"
filter_op_to_sql le = codes "<="
filter_op_to_sql gt = codes ">"
filter_op_to_sql ge = codes ">="
filter_op_to_sql like = codes "LIKE"
filter_op_to_sql inside = codes "IN"
filter_op_to_sql is_null = codes "IS NULL"
filter_op_to_sql is_not_null = codes "IS NOT NULL"
filter_op_to_sql _ = codes "="

abbrev pub takes_value : CompareOp → Bool
takes_value is_null = false
takes_value is_not_null = false
takes_value _ = true

abbrev pub value_or_null : Option Value → Value
value_or_null none = null
value_or_null (some v) = v

-- The loop over the filters, which three functions share word for word; `first` is its variable.
unfoldable pub filters_sql : Bool → List FilterClause → Text
unfolding filter_op_to_sql
filters_sql first [] = []
filters_sql first (f ∷ fs) =
    (if first then [] else codes " AND ")
    ++ (quoted f.column_name
        ++ (codes " "
            ++ (filter_op_to_sql f.op
                ++ ((if takes_value f.op then codes " ?" else []) ++ filters_sql false fs))))

-- The parameters that the same loop collects.
unfoldable pub filter_params : List FilterClause → List Value
filter_params [] = []
filter_params (f ∷ fs) =
    if takes_value f.op then value_or_null f.value ∷ filter_params fs else filter_params fs

abbrev pub where_sql : List FilterClause → Text
where_sql [] = []
where_sql (f ∷ fs) = codes " WHERE " ++ filters_sql true (f ∷ fs)

abbrev order_text : SortOrder → Text
order_text ascending = codes "ASC"
order_text descending = codes "DESC"

unfoldable pub orders_sql : Bool → List OrderClause → Text
orders_sql first [] = []
orders_sql first (o ∷ os) =
    separator first
    ++ (quoted o.column_name ++ (codes " " ++ (order_text o.order ++ orders_sql false os)))

abbrev pub order_by_sql : List OrderClause → Text
order_by_sql [] = []
order_by_sql (o ∷ os) = codes " ORDER BY " ++ orders_sql true (o ∷ os)

abbrev pub limit_sql : (ℤ → Text) → ℤ → Text
limit_sql text (pos n) = codes " LIMIT " ++ text (pos n)
limit_sql text (negsuc n) = []

abbrev pub offset_sql : (ℤ → Text) → ℤ → Text
offset_sql text (pos n) = if ltb 0 n then codes " OFFSET " ++ text (pos n) else []
offset_sql text (negsuc n) = []
