-- ===== src/Orm/Query/Outcomes.antt =====
-- What a query gives for the rows that its statement gets.
use orm_glib.Base.{
  ℕ, ◌≡◌, refl, ap, List, [], ◌∷◌, length, if◌then◌else◌, ◌==◌, Option, none, some, arith,
  Option-cases, inl, inr,
}
use orm_glib.Core.Value.{Value}
use orm_glib.Core.Error.{Error, not_found, query_failed}
use orm_glib.Engine.Row.{Row, row_get_value_by_name}
use orm_glib.Engine.Driver.{rows}
use orm_glib.Engine.Connection.{Connection, query_with_params}
use orm_glib.Orm.Mapper.{Mapper, Class}
use orm_glib.Orm.Property.{Property}
use orm_glib.Orm.Session.{SessionEnv, Session}
use orm_glib.Orm.Session.Access.{Found, found, missing, load_row}
use orm_glib.Orm.Query.{
  Query, build_select_sql, row_to_object, rows_to_objects, objects_of, query_all, query_one,
  query_one_or_none, one_of, one_or_none_of,
}

-- The specification of a query that wants one object, and of one that wants at most one.
abbrev pub head_of : List ℕ → Found → Found
head_of [] f = f
head_of (object ∷ _) f = found object

abbrev pub exactly_one : List ℕ → Found
exactly_one objects =
    if length objects == 0
    then missing (some not_found)
    else if length objects == 1
    then head_of objects (missing none)
    else missing (some query_failed)

abbrev pub at_most_one : List ℕ → Found
at_most_one objects =
    if length objects == 0
    then missing none
    else if length objects == 1
    then head_of objects (missing none)
    else missing (some query_failed)

one_of-exactly_one : (objects : List ℕ) → one_of (objects, none) ≡ exactly_one objects
one_of-exactly_one [] = refl
one_of-exactly_one (object ∷ []) = refl
one_of-exactly_one (object ∷ other ∷ more) = ground arith

one_or_none_of-at_most_one :
    (objects : List ℕ) → one_or_none_of (objects, none) ≡ at_most_one objects
one_or_none_of-at_most_one [] = refl
one_or_none_of-at_most_one (object ∷ []) = refl
one_or_none_of-at_most_one (object ∷ other ∷ more) = ground arith

module _ (g : SessionEnv) where
  -- The properties whose columns the row has were written to the object, one after the other, and
  -- the other ones were not.
  pub data Written (row : Row) (object : ℕ) : List Property → g.Store → g.Store → Type 0 where
    written_all : (store : g.Store) → Written row object [] store store
    written :
        (p : Property) (ps : List Property) (v : Value) (store final : g.Store)
        → row_get_value_by_name row p.column_name ≡ some v
        → Written row object ps (g.write store object p.property_name v) final
        → Written row object (p ∷ ps) store final
    left_alone :
        (p : Property) (ps : List Property) (store final : g.Store)
        → row_get_value_by_name row p.column_name ≡ none
        → Written row object ps store final
        → Written row object (p ∷ ps) store final

  -- Each row, in order, got an object of its own, which was created in the store that the rows
  -- before it left, and the row was written to it if its type is serializable.
  pub data Loaded (gtype : ℕ) (m : Mapper g.names)
      : g.Store → List Row → List ℕ → g.Store → Type 0 where
    loaded_all : (store : g.Store) → Loaded gtype m store [] [] store
    loaded_row :
        (row : Row) (xs : List Row) (objects : List ℕ) (c : Class) (store after final : g.Store)
        → g.class_of gtype ≡ some c
        → Written row (g.create store gtype).1 m.property_list (g.create store gtype).0 after
        → Loaded gtype m after xs objects final
        → Loaded gtype m store (row ∷ xs) ((g.create store gtype).1 ∷ objects) final
    created_only :
        (row : Row) (xs : List Row) (objects : List ℕ) (store final : g.Store)
        → g.class_of gtype ≡ none
        → Loaded gtype m (g.create store gtype).0 xs objects final
        → Loaded gtype m store (row ∷ xs) ((g.create store gtype).1 ∷ objects) final

  load_row-Written :
      (ps : List Property) (row : Row) (object : ℕ) (store : g.Store)
      → Written row object ps store (load_row g ps row object store)
  unfolding load_row
  load_row-Written [] row object store = written_all store
  load_row-Written (p ∷ ps) row object store =
      elim (Option-cases (row_get_value_by_name row p.column_name)) [
        | inl e ↦ rw e (left_alone p ps store _ e (load_row-Written ps row object store))
        | inr (v, e) ↦ rw e (
            written p ps v store _ e
              (load_row-Written ps row object (g.write store object p.property_name v)))
      ]

  rows_to_objects-Loaded :
      (gtype : ℕ) (m : Mapper g.names) (xs : List Row) (store : g.Store)
      → Loaded gtype m store xs
          (rows_to_objects g store gtype m xs).1
          (rows_to_objects g store gtype m xs).0
  unfolding rows_to_objects row_to_object
  rows_to_objects-Loaded gtype m [] store = loaded_all store
  rows_to_objects-Loaded gtype m (row ∷ xs) store = elim (Option-cases (g.class_of gtype)) [
    | inl e ↦ rw e (
        created_only row xs _ store _ e
          (rows_to_objects-Loaded gtype m xs (g.create store gtype).0))
    | inr (c, e) ↦ rw e (
        let after =
          load_row g m.property_list row (g.create store gtype).1 (g.create store gtype).0 in
        loaded_row row xs _ c store after _ e
          (load_row-Written m.property_list row (g.create store gtype).1 (g.create store gtype).0)
          (rows_to_objects-Loaded gtype m xs after))
  ]

  length-rows_to_objects :
      (gtype : ℕ) (m : Mapper g.names) (xs : List Row) (store : g.Store)
      → length (rows_to_objects g store gtype m xs).1 ≡ length xs
  unfolding rows_to_objects
  length-rows_to_objects gtype m [] store = refl
  length-rows_to_objects gtype m (row ∷ xs) store =
      omega (arith, length-rows_to_objects gtype m xs (row_to_object g store gtype m row).0)

module _ {g : SessionEnv} (s : Session g) (q : Query g) (m : Mapper g.names) where
  query_all-rows :
      (c : Connection g.driver) (xs : List Row) (ending : Option Error)
      → q.mapper ≡ some m
      → query_with_params s.connection (build_select_sql q m).0 (build_select_sql q m).1
        ≡ (c, rows xs ending)
      → query_all s q ≡ objects_of s q.gtype m (c, rows xs ending)
  unfolding query_all
  query_all-rows c xs ending h e = ground (arith, h, e)

  -- Of a query with a mapper whose statement gets rows, `all` gives one object for each row, in
  -- their order, also if an error ended the rows: the object was created for this row, in the store
  -- that the rows before left, and if the type is serializable, the value of each of the mapper's
  -- columns that the row has was written to it, and nothing else; the store that the session has
  -- afterwards is what this leaves. The identity map and the attached objects stay as they were.
  -- `one` and `one_or_none` leave the same session. `one` gives the object if there is exactly one
  -- row, and otherwise the error NOT_FOUND for none and QUERY_FAILED for several; `one_or_none` gives
  -- NULL without an error for none.
  pub query_outcomes :
      (c : Connection g.driver) (xs : List Row) (ending : Option Error)
      → q.mapper ≡ some m
      → query_with_params s.connection (build_select_sql q m).0 (build_select_sql q m).1
        ≡ (c, rows xs ending)
      → let (t, (objects, error)) = query_all s q in
        Loaded g q.gtype m s.store xs objects t.store
        × (length objects ≡ length xs)
        × (error ≡ none)
        × (t.identity_map ≡ s.identity_map)
        × (t.attached ≡ s.attached)
        × (query_one s q ≡ (t, exactly_one objects))
        × (query_one_or_none s q ≡ (t, at_most_one objects))
  unfolding query_one query_one_or_none
  query_outcomes c xs ending h e =
      let (store, objects) = rows_to_objects g s.store q.gtype m xs in
      rw (query_all-rows c xs ending h e) (
        rows_to_objects-Loaded g q.gtype m xs s.store,
        length-rows_to_objects g q.gtype m xs s.store,
        refl,
        refl,
        refl,
        ap (λ r. ((objects_of s q.gtype m (c, rows xs ending)).0, r)) (one_of-exactly_one objects),
        ap (λ r. ((objects_of s q.gtype m (c, rows xs ending)).0, r))
            (one_or_none_of-at_most_one objects),
      )
