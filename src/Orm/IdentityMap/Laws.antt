-- ===== src/Orm/IdentityMap/Laws.antt =====
-- The identity map as a finite map from (GType, primary key) to objects.
use orm_glib.Base.{
  ℕ, Bool, true, false, ◌&&◌, none, some, if◌then◌else◌, ◌==◌, ◌≡◌, ◌≢◌, arith, Option-cases, inl,
  inr,
}
use orm_glib.Core.Value.{Value}
use orm_glib.Orm.IdentityMap.{
  Env, IdentityMap, type_none, lookup_key, identity_key_new, add, get, contains_key, remove,
  remove_object, clear, identity_map_new,
}
use orm_glib.Orm.IdentityMap.Keys.{
  IdentityKey, identity_key_equal, primary_key_equal, IsKeyed, unkeyed_differs,
}

abbrev pub not_none : ℕ → Bool
not_none gtype = if gtype == type_none then false else true

-- Two primary keys of two types name one row.
abbrev pub same_row : Env → ℕ → Value → ℕ → Value → Bool
same_row g gtype pk gtype' pk' = gtype == gtype' && primary_key_equal g.platform pk pk'

lookup_unkeyed :
    (g : Env) (t : g.objects_table.Table) (k : IdentityKey)
    → ¬ IsKeyed k.primary_key
    → g.objects_table.lookup_extended t k ≡ none
unfolding identity_key_equal
lookup_unkeyed g t k n = elim (Option-cases (g.objects_table.lookup_extended t k)) [
  | inl e ↦ e
  | inr ((j, v), e) ↦ absurd (
      ground (
        arith,
        g.objects_table.lookup-equal t k j v e,
        unkeyed_differs g.platform g.laws k.primary_key j.primary_key n,
      ))
]

-- A new map finds nothing.
pub get-new : (g : Env) (gtype : ℕ) (pk : Value) → get (identity_map_new g) gtype pk ≡ none
unfolding get identity_map_new
get-new g gtype pk = ground (arith, g.objects_table.lookup-empty (lookup_key gtype pk))

module _ {g : Env} (m : IdentityMap g) where
  open g use {objects_table, reverse_table}

  -- After an add, the object is found under every key that names the same row, and every other key
  -- finds what it found before, for types that are not G_TYPE_NONE.
  pub get-add :
      (gtype : ℕ) (pk : Value) (object gtype' : ℕ) (pk' : Value)
      → gtype ≢ type_none
      → get (add m gtype pk object) gtype' pk' ≡ (
          if not_none gtype' && same_row g gtype pk gtype' pk'
          then some object
          else get m gtype' pk')
  unfolding get add identity_key_equal
  get-add gtype pk object gtype' pk' n = ground (
    arith,
    objects_table.lookup-insert m.objects (identity_key_new m gtype pk) object
        (lookup_key gtype' pk'),
  )

  -- After a remove, the keys that name the row find nothing and the others what they found before;
  -- the result tells whether the key was there. It holds for types that are not G_TYPE_NONE.
  pub get-remove :
      (gtype : ℕ) (pk : Value) (gtype' : ℕ) (pk' : Value)
      → gtype ≢ type_none
      → (get (remove m gtype pk).0 gtype' pk'
          ≡ (if same_row g gtype pk gtype' pk' then none else get m gtype' pk'))
        × ((remove m gtype pk).1 ≡ contains_key m gtype pk)
  unfolding get remove contains_key identity_key_equal
  get-remove gtype pk gtype' pk' n =
      ground
        (arith, objects_table.lookup-remove m.objects (lookup_key gtype pk) (lookup_key gtype' pk'))

  -- For types that are not G_TYPE_NONE: after an add, the object is found under every key that names
  -- the same row, and every other key finds what it found before; after a remove, the keys that name
  -- the row find nothing and the others what they found before, and the result tells whether the
  -- key was there.
  pub get-update :
      (gtype : ℕ) (pk : Value) (object gtype' : ℕ) (pk' : Value)
      → gtype ≢ type_none
      → (get (add m gtype pk object) gtype' pk' ≡ (
          if not_none gtype' && same_row g gtype pk gtype' pk'
          then some object
          else get m gtype' pk'))
        × (get (remove m gtype pk).0 gtype' pk'
            ≡ (if same_row g gtype pk gtype' pk' then none else get m gtype' pk'))
        × ((remove m gtype pk).1 ≡ contains_key m gtype pk)
  get-update gtype pk object gtype' pk' n =
      let (found, told) = get-remove gtype pk gtype' pk' n in
      (get-add gtype pk object gtype' pk' n, found, told)

  -- A cleared map, like a new one, finds nothing.
  pub get-clear : (gtype : ℕ) (pk : Value) → get (clear m) gtype pk ≡ none
  unfolding get clear
  get-clear gtype pk = ground (arith, objects_table.lookup-empty (lookup_key gtype pk))

  -- A primary key that is a float, a Boolean, a blob or a date is never found, so an object that
  -- was added under one can neither be found nor be removed.
  pub get_unkeyed :
      (gtype : ℕ) (pk : Value) (object : ℕ)
      → ¬ IsKeyed pk
      → gtype ≢ type_none
      → (get m gtype pk ≡ none)
        × ((remove m gtype pk).1 ≡ false)
        × ((remove_object (add m gtype pk object) object).1 ≡ false)
  unfolding get remove remove_object add identity_key_equal
  get_unkeyed gtype pk object n k =
      let key = identity_key_new m gtype pk in
      ground (
        arith,
        lookup_unkeyed g m.objects (lookup_key gtype pk) n,
        lookup_unkeyed g m.objects key n,
        unkeyed_differs g.platform g.laws pk pk n,
        objects_table.lookup-insert m.objects key object key,
        reverse_table.lookup-insert m.object_to_key object key object,
      )
