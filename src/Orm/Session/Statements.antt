-- ===== src/Orm/Session/Statements.antt =====
-- build_insert_sql of orm/orm-session.c, on the mappers of orm/orm-mapper.c.
use orm_glib.Base.{
  ℕ, Bool, true, false, ◌≡◌, if◌then◌else◌, none, some, arith, refl, List, [], ◌∷◌, ◌++◌, Text,
  codes, All, length, Bool-cases, inl, inr, text_eq_refl, zero, suc, ◌∙◌, ap, sym,
}
use orm_glib.Core.Value.{Value}
use orm_glib.Orm.Property.{Property}
use orm_glib.Orm.Mapper.{
  NameTable, Mapper, add_property, get_property_by_column, insert_columns, get_insert_columns,
}
use orm_glib.Orm.Session.{SessionEnv}
use orm_glib.Orm.Session.Sql.{append_columns, build_insert_sql, separator}

All-append :
    {A : Type 0} (P : A → Type 0) (xs : List A) (x : A) → All P xs → P x → All P (xs ++ x ∷ [])
All-append P [] x h k = (k, tt)
All-append P (y ∷ ys) x h k = (h.0, All-append P ys x h.1 k)

All-weaken :
    {A : Type 0} (P Q : A → Type 0) (xs : List A) → ((x : A) → P x → Q x) → All P xs → All Q xs
All-weaken P Q [] f h = tt
All-weaken P Q (x ∷ xs) f h = (f x h.0, All-weaken P Q xs f h.1)

-- Each property of the list is found under its column.
abbrev pub IsConsistent : {names : NameTable} → Mapper names → Type 0
IsConsistent m = All (λ p. get_property_by_column m p.column_name ≡ some p) m.property_list

module _ {names : NameTable} (m : Mapper names) where
  kept_property :
      (p q : Property)
      → get_property_by_column m p.column_name ≡ none
      → get_property_by_column m q.column_name ≡ some q
      → get_property_by_column (add_property m p) q.column_name ≡ some q
  unfolding add_property
  kept_property p q fresh e = ground (
    arith,
    fresh,
    e,
    names.lookup-insert m.column_to_property p.column_name p q.column_name,
    names.lookup_cong m.column_to_property p.column_name q.column_name,
  )

  -- If each property of a mapper is found under its column, then so it is after a property with a
  -- column that was not there is added.
  pub add_property-IsConsistent :
      (p : Property)
      → IsConsistent m
      → get_property_by_column m p.column_name ≡ none
      → IsConsistent (add_property m p)
  unfolding add_property
  add_property-IsConsistent p h fresh =
      let P = λ (q : Property). get_property_by_column (add_property m p) q.column_name ≡ some q in
      All-append P m.property_list p
        (All-weaken _ P m.property_list (λ q e. kept_property p q fresh e) h)
        (ground (
          arith,
          names.lookup-insert m.column_to_property p.column_name p p.column_name,
          text_eq_refl p.column_name,
        ))

-- "?, ?, ?": as many marks as there are parameters.
unfoldable pub marks : Bool → ℕ → Text
marks first zero = []
marks first (suc n) = separator first ++ codes "?" ++ marks false n

-- The columns of the properties that do not count up by themselves, in the order of the list.
unfoldable pub inserted_columns : List Property → List Text
inserted_columns [] = []
inserted_columns (p ∷ ps) =
    if p.is_auto_increment then inserted_columns ps else p.column_name ∷ inserted_columns ps

-- Names in double quotes, with commas between them.
unfoldable pub listed : Bool → List Text → Text
listed first [] = []
listed first (name ∷ names) =
    separator first ++ (codes "\"" ++ name ++ codes "\"") ++ listed false names

module _ (g : SessionEnv) (store : g.Store) (object : ℕ) where
  -- The values of the properties that do not count up by themselves, in the order of the list.
  unfoldable pub inserted_values : List Property → List Value
  inserted_values [] = []
  inserted_values (p ∷ ps) =
      if p.is_auto_increment
      then inserted_values ps
      else g.read store object p.property_name ∷ inserted_values ps

  parts_lem :
      (m : Mapper g.names) (first : Bool) (ps : List Property)
      → All (λ p. get_property_by_column m p.column_name ≡ some p) ps
      → let parts = append_columns g store object m first (insert_columns ps) in
        (parts.params ≡ inserted_values ps)
        × (parts.values ≡ marks first (length (inserted_values ps)))
        × (parts.columns ≡ listed first (inserted_columns ps))
  unfolding append_columns inserted_values inserted_columns marks listed
  parts_lem m first [] h = (refl, refl, refl)
  parts_lem m first (p ∷ ps) (e, h) = elim (Bool-cases p.is_auto_increment) [
    | inl a ↦ ground (arith, a, parts_lem m first ps h)
    | inr a ↦ ground (arith, a, e, parts_lem m false ps h)
  ]

  -- For a mapper with each property found under its column, the INSERT of an object binds the
  -- values of exactly the properties that do not count up by themselves, in their order, and its text
  -- names the columns of these properties in quotes, in their order, and then, in the parentheses
  -- behind VALUES, one placeholder for each value and nothing else.
  pub insert-params :
      (m : Mapper g.names)
      → IsConsistent m
      → let parts = append_columns g store object m true (get_insert_columns m) in
        (parts.params ≡ inserted_values m.property_list)
        × (parts.values ≡ marks true (length parts.params))
        × (build_insert_sql g store object m ≡ (
          codes "INSERT INTO "
              ++ (codes "\"" ++ m.table_name ++ codes "\"")
              ++ codes " ("
              ++ listed true (inserted_columns m.property_list)
              ++ codes ") "
              ++ codes "VALUES ("
              ++ marks true (length (inserted_values m.property_list))
              ++ codes ")",
          inserted_values m.property_list,
        ))
  unfolding build_insert_sql get_insert_columns
  insert-params m h =
      let (params, values, columns) = parts_lem m true m.property_list h in
      (
        params,
        values ∙ ap (λ l. marks true (length l)) (sym params),
        rw (params, values, columns) refl,
      )
