-- ===== src/Sql/Statement/Samples.antt =====
-- A statement of each kind.
use orm_glib.Base.{ℕ, zero, suc, ◌≡◌, refl, true, [], ◌∷◌, Text, codes, some, arith}
use orm_glib.Base.Int.{ℤ, pos}
use orm_glib.Core.Value.{integer}
use orm_glib.Engine.Driver.{sqlite, mysql}
use orm_glib.Dialect.{sql_quote_identifier}
use orm_glib.Sql.Binary.{Expression, other, comparison, eq, is_null}
use orm_glib.Sql.Statement.{Piece, Select, Insert, Update, Delete, left_join, descending}
use orm_glib.Sql.Statement.Compile.{select_compile, insert_compile, update_compile, delete_compile}
use orm_glib.Sql.Statement.Build.{
  select_new, select_from_clause, select_column_expr, select_join, select_where, select_and_where,
  select_order_by, select_limit, select_distinct, insert_new, insert_column_expr, insert_returning,
  update_new, update_set_expr, update_where, delete_new, delete_and_where, delete_returning_all,
}
use orm_glib.Sql.Statement.Fits.{SelectFits, InsertFits, UpdateFits, DeleteFits}
use orm_glib.Sql.Statement.Placeholders.{IsBalanced, IsBalancedText}
use orm_glib.Sql.Statement.Balance.{statements-IsBalanced}

-- The table, a column, and a literal.
abbrev leaf : ℕ → Piece
leaf zero = (codes "\"users\"", [])
leaf (suc zero) = (codes "\"id\"", [])
leaf (suc (suc n)) = (codes "?", integer (pos n) ∷ [])

leaves : (n : ℕ) → IsBalanced (leaf n)
leaves zero = refl
leaves (suc zero) = refl
leaves (suc (suc n)) = refl

abbrev digits : ℤ → Text
digits n = codes "5"

-- id = 5.
abbrev condition : Expression
condition = comparison (other 1) eq (other 7)

abbrev select : Select
unfolding select_new select_from_clause select_column_expr select_join select_where select_and_where
    select_order_by select_limit select_distinct
select =
    let all = select_column_expr (select_from_clause select_new (other 0)) (other 1) in
    let joined = select_join all (codes "posts") condition left_join in
    let filtered = select_and_where (select_where joined condition) condition in
    select_distinct (select_limit (select_order_by filtered (codes "id") descending) (pos 5)) true

abbrev insert : Insert
unfolding insert_new insert_column_expr insert_returning
insert =
    let first = insert_column_expr (insert_new (codes "users")) (codes "id") (other 3) in
    insert_returning (insert_column_expr first (codes "age") (other 4)) (codes "id" ∷ [])

abbrev update : Update
unfolding update_new update_set_expr update_where
update =
    update_where (update_set_expr (update_new (codes "users")) (codes "age") (other 4)) condition

abbrev deletion : Delete
unfolding delete_new delete_and_where delete_returning_all
deletion = delete_returning_all (delete_and_where (delete_new (codes "users")) condition)

update_text :
    update_compile digits leaf mysql update
    ≡ some (
      codes "UPDATE `users` SET `age` = ? WHERE \"id\" = ?",
      integer (pos 2) ∷ integer (pos 5) ∷ [],
    )
unfolding update update_compile sql_quote_identifier
update_text = refl

insert_text :
    insert_compile digits leaf sqlite insert
    ≡ some (
      codes "INSERT INTO \"users\" (\"id\", \"age\") VALUES (?, ?) RETURNING \"id\"",
      integer (pos 1) ∷ integer (pos 2) ∷ [],
    )
unfolding insert insert_compile sql_quote_identifier
insert_text = refl

-- A right operand of IS NULL leaves a value without a placeholder.
lost_value :
    delete_compile digits leaf sqlite
      (record deletion { where_clause = some (comparison (other 1) is_null (other 7)) })
    ≡ (codes "DELETE FROM \"users\" WHERE \"id\" IS NULL RETURNING *", integer (pos 5) ∷ [])
unfolding deletion delete_compile sql_quote_identifier
lost_value = refl

select_fits : SelectFits select
unfolding select
select_fits = ground arith

insert_fits : InsertFits insert
unfolding insert
insert_fits = ground arith

update_fits : UpdateFits update
unfolding update
update_fits = ground arith

delete_fits : DeleteFits deletion
unfolding deletion
delete_fits = ground arith

statements-IsBalanced_example :
    IsBalancedText (select_compile digits leaf sqlite select)
    × IsBalancedText (insert_compile digits leaf sqlite insert)
    × IsBalancedText (update_compile digits leaf sqlite update)
    × IsBalanced (delete_compile digits leaf sqlite deletion)
statements-IsBalanced_example =
    statements-IsBalanced digits leaf sqlite (λ n. refl) leaves select insert update deletion
      select_fits insert_fits update_fits delete_fits
