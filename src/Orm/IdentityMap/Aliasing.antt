-- ===== src/Orm/IdentityMap/Aliasing.antt =====
-- Two objects under one row: which pointers to keys are left, and what removals then do.
use orm_glib.Base.{ℕ, true, false, none, some, ◌≡◌, ◌≢◌, arith}
use orm_glib.Core.Value.{Value}
use orm_glib.Orm.IdentityMap.{
  Env, IdentityMap, type_none, lookup_key, identity_key_new, add, get, remove_object,
}
use orm_glib.Orm.IdentityMap.Keys.{identity_key_equal, IsKeyed, keyed_refl}
use orm_glib.Orm.IdentityMap.Invariant.{Inv, key_absent}

module _ {g : Env} where
  open g use {objects_table, reverse_table, platform, laws}

  add-remove_object_dangling :
      (m : IdentityMap g) (gtype : ℕ) (pk : Value) (first second : ℕ)
      → IsKeyed pk
      → gtype ≢ type_none
      → (remove_object (add (add m gtype pk first) gtype pk second) second).0.faulted ≡ true
  unfolding add remove_object identity_key_equal
  add-remove_object_dangling m gtype pk first second keyed typed =
      let m' = add m gtype pk first in
      let key = identity_key_new m gtype pk in
      let key' = identity_key_new m' gtype pk in
      ground (
        arith,
        keyed_refl platform laws pk keyed,
        objects_table.lookup-insert m.objects key first key',
        reverse_table.lookup-insert m'.object_to_key second key' second,
      )

  add-remove_object_displaced :
      (m : IdentityMap g) (gtype : ℕ) (pk : Value) (first second : ℕ)
      → Inv m
      → IsKeyed pk
      → gtype ≢ type_none
      → get m gtype pk ≡ none
      → first ≢ second
      → let m' = add (add m gtype pk first) gtype pk second in
        (get m' gtype pk ≡ some second)
        × ((remove_object m' first).0.faulted ≡ false)
        × (get (remove_object m' first).0 gtype pk ≡ none)
  unfolding add remove_object get identity_key_equal
  add-remove_object_displaced m gtype pk first second v keyed typed fresh ne =
      let m' = add m gtype pk first in
      let m'' = add m' gtype pk second in
      let key = identity_key_new m gtype pk in
      let key' = identity_key_new m' gtype pk in
      ground (
        arith,
        v.sound,
        v.unfreed m.next,
        keyed_refl platform laws pk keyed,
        key_absent m v gtype pk first keyed typed fresh,
        objects_table.lookup-insert m.objects key first key',
        objects_table.lookup-insert m.objects key first key,
        objects_table.lookup-insert m'.objects key' second key,
        objects_table.lookup-insert m'.objects key' second (lookup_key gtype pk),
        objects_table.lookup-remove m''.objects key (lookup_key gtype pk),
        reverse_table.lookup-insert m.object_to_key first key first,
        reverse_table.lookup-insert m'.object_to_key second key' first,
      )

  -- In a map that satisfies the invariant, for a primary key that is an integer, a string or NULL, a
  -- type other than G_TYPE_NONE, a row that is not in the map, and two different objects that are
  -- added under it: the row gives the second object; removing the first one by its pointer takes the
  -- row out of the map, reading no freed key; removing the second one by its pointer reads a key that
  -- the second add has freed.
  pub add-remove_object_aliased :
      (m : IdentityMap g) (gtype : ℕ) (pk : Value) (first second : ℕ)
      → Inv m
      → IsKeyed pk
      → gtype ≢ type_none
      → get m gtype pk ≡ none
      → first ≢ second
      → let m' = add (add m gtype pk first) gtype pk second in
        ((get m' gtype pk ≡ some second)
          × ((remove_object m' first).0.faulted ≡ false)
          × (get (remove_object m' first).0 gtype pk ≡ none))
        × ((remove_object m' second).0.faulted ≡ true)
  add-remove_object_aliased m gtype pk first second v keyed typed fresh ne = (
    add-remove_object_displaced m gtype pk first second v keyed typed fresh ne,
    add-remove_object_dangling m gtype pk first second keyed typed,
  )
