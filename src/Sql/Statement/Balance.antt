-- ===== src/Sql/Statement/Balance.antt =====
-- Each statement binds as many values as it has placeholders.
use orm_glib.Base.{ℕ, refl, List, [], ◌∷◌, Text, codes, if◌then◌else◌, Option, none, some}
use orm_glib.Base.Int.{ℤ}
use orm_glib.Engine.Driver.{DialectType}
use orm_glib.Sql.Binary.{Expression}
use orm_glib.Sql.Statement.{Piece, concat, Select, Insert, Update, Delete}
use orm_glib.Sql.Statement.Compile.{
  select_pieces, insert_pieces, update_pieces, delete_pieces, select_compile, insert_compile,
  update_compile, delete_compile, is_empty,
}
use orm_glib.Sql.Statement.Fits.{SelectFits, InsertFits, UpdateFits, DeleteFits}
use orm_glib.Sql.Statement.Placeholders.{
  IsBalanced, IsBalancedText, IsNonempty, IsPlain, IsPlainTable, Unmarked, concat-IsBalanced,
  separated-IsBalanced, compile_piece-IsBalanced,
}
use orm_glib.Sql.Statement.Clauses.{
  clause-IsBalanced, columns-IsBalanced, distinct-marks, first_names-IsBalanced, joins-IsBalanced,
  name-IsBalanced, names_clause-IsBalanced, number_clause-IsBalanced, orders_clause-IsBalanced,
  returning-IsBalanced, second_values-IsBalanced, settings-IsBalanced,
}

module _ (int_to_text : ℤ → Text) (leaf : ℕ → Piece) (d : DialectType)
    (digits : (n : ℤ) → Unmarked (int_to_text n)) (leaves : (n : ℕ) → IsBalanced (leaf n)) where
  pieces-IsBalanced :
      (s : Select) (table : Expression)
      → SelectFits s
      → IsPlain table
      → IsBalanced (concat (select_pieces int_to_text leaf d s table))
  pieces-IsBalanced s table f h = concat-IsBalanced (select_pieces int_to_text leaf d s table) (
    refl,
    (
      distinct-marks int_to_text leaf d digits leaves s.use_distinct,
      (
        columns-IsBalanced int_to_text leaf d digits leaves s.columns f.columns,
        (
          refl,
          (
            compile_piece-IsBalanced leaf leaves table h,
            (
              joins-IsBalanced int_to_text leaf d digits leaves s.joins f.joins,
              (
                clause-IsBalanced int_to_text leaf d digits leaves (codes " WHERE ") s.where_clause
                    refl f.where_clause,
                (
                  names_clause-IsBalanced int_to_text leaf d digits leaves (codes " GROUP BY ")
                      s.group_by refl f.group_by,
                  (
                    clause-IsBalanced int_to_text leaf d digits leaves (codes " HAVING ")
                        s.having_clause refl f.having_clause,
                    (
                      orders_clause-IsBalanced int_to_text leaf d digits leaves s.order_by
                          f.order_by,
                      (
                        number_clause-IsBalanced int_to_text leaf d digits leaves (codes " LIMIT ")
                            s.limit_value refl,
                        (
                          number_clause-IsBalanced int_to_text leaf d digits leaves
                              (codes " OFFSET ") s.offset_value refl,
                          tt,
                        ),
                      ),
                    ),
                  ),
                ),
              ),
            ),
          ),
        ),
      ),
    ),
  )

  select-IsBalanced :
      (s : Select) → SelectFits s → IsBalancedText (select_compile int_to_text leaf d s)
  unfolding select_compile
  select-IsBalanced s f = from s.from_table f.from_table
    where
      from :
          (o : Option Expression)
          → IsPlainTable o
          → IsBalancedText (elim o [
            | none ↦ none
            | some table ↦ some (concat (select_pieces int_to_text leaf d s table))
          ])
      from none h = elim h [ ]
      from (some table) h = pieces-IsBalanced s table f h

  given-IsBalanced :
      (l : List (Text × Expression)) (p : Piece)
      → IsNonempty l
      → IsBalanced p
      → IsBalancedText (if is_empty l then none else some p)
  given-IsBalanced [] p n h = elim n [ ]
  given-IsBalanced (_ ∷ _) p n h = h

  insert-IsBalanced :
      (i : Insert) → InsertFits i → IsBalancedText (insert_compile int_to_text leaf d i)
  unfolding insert_compile
  insert-IsBalanced i f =
      let first =
        separated-IsBalanced _
          (first_names-IsBalanced int_to_text leaf d digits leaves i.columns f.columns) in
      let second =
        separated-IsBalanced _
          (second_values-IsBalanced int_to_text leaf d digits leaves i.columns f.columns) in
      let last =
        returning-IsBalanced int_to_text leaf d digits leaves i.returning_all i.returning
          f.returning in
      given-IsBalanced i.columns (concat (insert_pieces int_to_text leaf d i)) f.is_given (
        concat-IsBalanced (insert_pieces int_to_text leaf d i) (
          refl,
          (
            name-IsBalanced int_to_text leaf d digits leaves i.table_name f.table_name,
            (refl, (first, (refl, (refl, (second, (refl, (last, tt))))))),
          ),
        ))

  update-IsBalanced :
      (u : Update) → UpdateFits u → IsBalancedText (update_compile int_to_text leaf d u)
  unfolding update_compile
  update-IsBalanced u f =
      let set =
        separated-IsBalanced _
          (settings-IsBalanced int_to_text leaf d digits leaves u.set_columns f.set_columns) in
      let condition =
        clause-IsBalanced int_to_text leaf d digits leaves (codes " WHERE ") u.where_clause refl
          f.where_clause in
      let last =
        returning-IsBalanced int_to_text leaf d digits leaves u.returning_all u.returning
          f.returning in
      given-IsBalanced u.set_columns (concat (update_pieces int_to_text leaf d u)) f.is_given (
        concat-IsBalanced (update_pieces int_to_text leaf d u) (
          refl,
          (
            name-IsBalanced int_to_text leaf d digits leaves u.table_name f.table_name,
            (refl, (set, (condition, (last, tt)))),
          ),
        ))

  delete-IsBalanced : (s : Delete) → DeleteFits s → IsBalanced (delete_compile int_to_text leaf d s)
  unfolding delete_compile
  delete-IsBalanced s f =
      let condition =
        clause-IsBalanced int_to_text leaf d digits leaves (codes " WHERE ") s.where_clause refl
          f.where_clause in
      let last =
        returning-IsBalanced int_to_text leaf d digits leaves s.returning_all s.returning
          f.returning in
      concat-IsBalanced (delete_pieces int_to_text leaf d s) (
        refl,
        (
          name-IsBalanced int_to_text leaf d digits leaves s.table_name f.table_name,
          (condition, (last, tt)),
        ),
      )

  -- Each of the four statements has a text, which binds as many values as it has placeholders, in any
  -- dialect: if it has the table or the columns that it needs, its names hold no question mark, no
  -- comparison by IS NULL has a right operand, numbers are printed without a question mark, and the
  -- other expressions bind a value for each placeholder.
  pub statements-IsBalanced :
      (s : Select) (i : Insert) (u : Update) (r : Delete)
      → SelectFits s
      → InsertFits i
      → UpdateFits u
      → DeleteFits r
      → IsBalancedText (select_compile int_to_text leaf d s)
        × IsBalancedText (insert_compile int_to_text leaf d i)
        × IsBalancedText (update_compile int_to_text leaf d u)
        × IsBalanced (delete_compile int_to_text leaf d r)
  statements-IsBalanced s i u r fs fi fu fr = (
    select-IsBalanced s fs,
    insert-IsBalanced i fi,
    update-IsBalanced u fu,
    delete-IsBalanced r fr,
  )
