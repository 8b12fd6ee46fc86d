-- ===== src/Schema/Metadata/Order.antt =====
-- The tables of a metadata object stay what was added, in order.
use orm_glib.Base.{
  ℕ, ◌+◌, ◌-◌, ◌≡◌, true, false, Option, none, some, List, [], ◌∷◌, ◌++◌, Text, if◌then◌else◌, ◌==◌,
  ==→≡, text_eq, text_eq→≡, text_eq_refl, Bool-cases, Option-cases, inl, inr, arith,
}
use orm_glib.Glib.{lookup, contains}
use orm_glib.Schema.{Table}
use orm_glib.Schema.Metadata.{
  MetadataEnv, Metadata, metadata_new, delete_link, add_table, get_table, remove_table,
  clear_tables,
}

-- How often an address stands in a list.
abbrev pub times : ℕ → List ℕ → ℕ
times t [] = 0
times t (u ∷ l) = (if u == t then 1 else 0) + times t l

abbrev pub held : Option ℕ → ℕ → ℕ
held none t = 0
held (some u) t = if u == t then 1 else 0

times-append : (t u : ℕ) (l : List ℕ) → times t (l ++ u ∷ []) ≡ times t l + times t (u ∷ [])
times-append t u [] = omega arith
times-append t u (v ∷ l) = omega (arith, times-append t u l)

times-delete_link :
    (t u : ℕ) (l : List ℕ)
    → times u (delete_link l t) ≡ (if t == u then times u l - 1 else times u l)
unfolding delete_link
times-delete_link t u [] = ground arith
times-delete_link t u (v ∷ l) = ground (arith, times-delete_link t u l)

-- Two addresses that are equal have one name.
same_name :
    (table_of : ℕ → Table) (t u : ℕ)
    → (t == u) ≡ true
    → text_eq (table_of t).name (table_of u).name ≡ true
same_name table_of t u e = rw (==→≡ t u e) (text_eq_refl (table_of u).name)

-- What a program does to a metadata object.
pub data Change : Type 0 where
  add_change : ℕ → Change
  remove_change : Text → Change
  clear_change : Change

module _ {g : MetadataEnv} where
  open g use {names, table_of}

  -- A table is in the list exactly once if its name gives it, and not at all otherwise; and what a
  -- name gives is called so.
  pub record IsSound (m : Metadata g) : Type 0 where
    pub listed : (t : ℕ) → times t m.table_list ≡ held (get_table m (table_of t).name) t
    pub named : (n : Text) (t : ℕ) → get_table m n ≡ some t → (table_of t).name ≡ n

  pub metadata_new-IsSound : IsSound (metadata_new g)
  unfolding metadata_new get_table
  metadata_new-IsSound = record {
    listed = λ t. ground (arith, names.lookup-empty (table_of t).name);
    named = λ n t h. ground (arith, h, names.lookup-empty n);
  }

  add_table-listed :
      (m : Metadata g) (t u : ℕ)
      → IsSound m
      → contains names m.tables (table_of t).name ≡ false
      → times u (m.table_list ++ t ∷ [])
        ≡ held (lookup names (names.insert m.tables (table_of t).name t) (table_of u).name) u
  unfolding get_table
  add_table-listed m t u v e = elim (Bool-cases (text_eq (table_of t).name (table_of u).name)) [
    | inl h ↦ ground (
      arith,
      e,
      h,
      v.listed u,
      times-append u t m.table_list,
      names.lookup-insert m.tables (table_of t).name t (table_of u).name,
      names.lookup_cong m.tables (table_of t).name (table_of u).name h,
    )
    | inr h ↦ ground (
      arith,
      h,
      v.listed u,
      times-append u t m.table_list,
      same_name table_of t u,
      names.lookup-insert m.tables (table_of t).name t (table_of u).name,
    )
  ]

  add_table-named :
      (m : Metadata g) (t u : ℕ) (n : Text)
      → IsSound m
      → lookup names (names.insert m.tables (table_of t).name t) n ≡ some u
      → (table_of u).name ≡ n
  unfolding get_table
  add_table-named m t u n v e = elim (Bool-cases (text_eq (table_of t).name n)) [
    | inl h ↦ ground (
      arith,
      e,
      h,
      text_eq→≡ (table_of t).name n h,
      names.lookup-insert m.tables (table_of t).name t n,
    )
    | inr h ↦ ground (arith, e, h, v.named n u, names.lookup-insert m.tables (table_of t).name t n)
  ]

  add_table-IsSound : (m : Metadata g) (t : ℕ) → IsSound m → IsSound (add_table m t)
  unfolding add_table get_table
  add_table-IsSound m t v = elim (Bool-cases (contains names m.tables (table_of t).name)) [
    | inl e ↦ rw e v
    | inr e ↦ rw e (record {
      listed = λ u. add_table-listed m t u v e;
      named = λ n u h. add_table-named m t u n v h;
    })
  ]

  remove_table-listed :
      (m : Metadata g) (n : Text) (t u : ℕ)
      → IsSound m
      → lookup names m.tables n ≡ some t
      → times u (delete_link m.table_list t)
        ≡ held (lookup names (names.remove m.tables n) (table_of u).name) u
  unfolding get_table
  remove_table-listed m n t u v e = elim (Bool-cases (text_eq n (table_of u).name)) [
    | inl h ↦ ground (
      arith,
      e,
      h,
      v.listed u,
      times-delete_link t u m.table_list,
      names.lookup-remove m.tables n (table_of u).name,
      names.lookup_cong m.tables n (table_of u).name h,
    )
    | inr h ↦ ground (
      arith,
      e,
      h,
      v.listed u,
      v.named n t e,
      same_name table_of t u,
      times-delete_link t u m.table_list,
      names.lookup-remove m.tables n (table_of u).name,
    )
  ]

  remove_table-IsSound : (m : Metadata g) (n : Text) → IsSound m → IsSound (remove_table m n)
  unfolding remove_table get_table
  remove_table-IsSound m n v = elim (Option-cases (lookup names m.tables n)) [
    | inl e ↦ rw (e, remove_table) v
    | inr (t, e) ↦
        rw (e, remove_table)
          (record {
            listed = λ u. remove_table-listed m n t u v e;
            named = λ k u h. ground (arith, h, v.named k u, names.lookup-remove m.tables n k);
          })
  ]

  clear_tables-IsSound : (m : Metadata g) → IsSound (clear_tables m)
  unfolding clear_tables get_table
  clear_tables-IsSound m = record {
    listed = λ t. ground (arith, names.lookup-empty (table_of t).name);
    named = λ n t h. ground (arith, h, names.lookup-empty n);
  }

  abbrev pub changed : Metadata g → Change → Metadata g
  changed m (add_change t) = add_table m t
  changed m (remove_change n) = remove_table m n
  changed m clear_change = clear_tables m

  abbrev pub changed_by : Metadata g → List Change → Metadata g
  changed_by m [] = m
  changed_by m (x ∷ xs) = changed_by (changed m x) xs

  changed-IsSound : (m : Metadata g) (x : Change) → IsSound m → IsSound (changed m x)
  changed-IsSound m (add_change t) v = add_table-IsSound m t v
  changed-IsSound m (remove_change n) v = remove_table-IsSound m n v
  changed-IsSound m clear_change v = clear_tables-IsSound m

  pub changed_by-IsSound :
      (m : Metadata g) (xs : List Change) → IsSound m → IsSound (changed_by m xs)
  changed_by-IsSound m [] v = v
  changed_by-IsSound m (x ∷ xs) v = changed_by-IsSound (changed m x) xs (changed-IsSound m x v)
