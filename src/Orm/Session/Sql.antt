-- ===== src/Orm/Session/Sql.antt =====
-- orm/orm-session.c: build_insert_sql and build_delete_sql.
use orm_glib.Base.{ℕ, Bool, true, false, List, [], ◌∷◌, ◌++◌, Text, codes, Option, none, some}
use orm_glib.Core.Value.{Value}
use orm_glib.Orm.Mapper.{Mapper, get_property_by_column, get_insert_columns}
use orm_glib.Orm.Session.{SessionEnv}

abbrev pub quoted : Text → Text
quoted name = codes "\"" ++ name ++ codes "\""

abbrev pub separator : Bool → Text
separator true = []
separator false = codes ", "

-- The two strings of build_insert_sql and its parameters.
pub record Parts : Type 0 where
  pub columns : Text
  pub values : Text
  pub params : List Value

module _ (g : SessionEnv) where
  open g use {names, read, Store}

  -- The loop over the columns of the INSERT; `first` is its local variable.
  unfoldable pub append_columns : Store → ℕ → Mapper names → Bool → List Text → Parts
  append_columns store object m first [] = record { columns = []; values = []; params = [] }
  append_columns store object m first (column ∷ rest) =
      let skipped = append_columns store object m first rest in
      let later = append_columns store object m false rest in
      elim (get_property_by_column m column) [
        | none ↦ skipped
        | some p ↦ record {
          columns = separator first ++ quoted column ++ later.columns;
          values = separator first ++ codes "?" ++ later.values;
          params = read store object p.property_name ∷ later.params;
        }
      ]

  unfoldable pub build_insert_sql : Store → ℕ → Mapper names → Text × List Value
  unfolding append_columns get_insert_columns
  build_insert_sql store object m =
      let parts = append_columns store object m true (get_insert_columns m) in
      (
        codes "INSERT INTO "
            ++ quoted m.table_name
            ++ codes " ("
            ++ parts.columns
            ++ codes ") "
            ++ codes "VALUES ("
            ++ parts.values
            ++ codes ")",
        parts.params,
      )

  unfoldable pub build_delete_sql : Store → ℕ → Mapper names → Option (Text × List Value)
  build_delete_sql store object m = elim m.primary_key [
    | none ↦ none
    | some p ↦ some (
      codes "DELETE FROM "
          ++ quoted m.table_name
          ++ codes " WHERE "
          ++ quoted p.column_name
          ++ codes " = ?",
      read store object p.property_name ∷ [],
    )
  ]
