-- ===== src/Orm/IdentityMap/Invariant.antt =====
-- orm_identity_map_add: the two tables of the identity map fit together.
use orm_glib.Base.{ℕ, true, false, none, some, ◌≡◌, ◌≢◌, refl, arith, ◌≤◌, ◌<◌}
use orm_glib.Core.Value.{Value}
use orm_glib.Glib.{lookup}
use orm_glib.Orm.IdentityMap.{
  Env, IdentityMap, type_none, lookup_key, identity_key_new, add, get, remove_object,
  identity_map_new,
}
use orm_glib.Orm.IdentityMap.Keys.{IdentityKey, identity_key_equal, IsKeyed, keyed_refl}

-- `owned`: an object points to the key under which it is stored. `live`: a stored key is allocated,
-- was not freed, and no other stored key has its address.
pub record Inv {g : Env} (m : IdentityMap g) : Type 0 where
  pub sound : m.faulted ≡ false
  pub owned :
      (object : ℕ) (k : IdentityKey)
      → lookup g.reverse_table m.object_to_key object ≡ some k
      → g.objects_table.lookup_extended m.objects k ≡ some (k, object)
  pub live :
      (j k : IdentityKey) (object : ℕ)
      → g.objects_table.lookup_extended m.objects j ≡ some (k, object)
      → (m.freed k.address ≡ false) × (k.address < m.next)
  pub distinct :
      (i j k l : IdentityKey) (a b : ℕ)
      → g.objects_table.lookup_extended m.objects i ≡ some (k, a)
      → g.objects_table.lookup_extended m.objects j ≡ some (l, b)
      → k.address ≡ l.address
      → k ≡ l
  pub unfreed : (a : ℕ) → m.next ≤ a → m.freed a ≡ false

module _ {g : Env} where
  open g use {objects_table, reverse_table, platform, laws}

  pub new-Inv : Inv (identity_map_new g)
  unfolding identity_map_new
  new-Inv = record {
    sound = refl;
    owned = λ o k e. ground (arith, reverse_table.lookup-empty o);
    live = λ j k o e. ground (arith, objects_table.lookup-empty j);
    distinct = λ i j k l a b e f h. ground (arith, objects_table.lookup-empty i);
    unfreed = λ a h. refl;
  }

  module _ (m : IdentityMap g) (v : Inv m) (gtype : ℕ) (pk : Value) (object : ℕ)
      (keyed : IsKeyed pk) (typed : gtype ≢ type_none) (fresh : get m gtype pk ≡ none) where
    abbrev new_key : IdentityKey
    new_key = identity_key_new m gtype pk

    key_self : identity_key_equal platform new_key new_key ≡ true
    unfolding identity_key_equal
    key_self = ground (arith, keyed_refl platform laws pk keyed)

    pub key_absent : objects_table.lookup_extended m.objects new_key ≡ none
    unfolding get identity_key_equal
    key_absent = ground (
      arith,
      objects_table.lookup_cong m.objects new_key (lookup_key gtype pk),
      keyed_refl platform laws pk keyed,
      fresh,
    )

    new_owned :
        (o : ℕ) (k : IdentityKey)
        → lookup reverse_table (add m gtype pk object).object_to_key o ≡ some k
        → objects_table.lookup_extended (add m gtype pk object).objects k ≡ some (k, o)
    unfolding add
    new_owned o k e = ground (
      arith,
      key_self,
      key_absent,
      reverse_table.lookup-insert m.object_to_key object new_key o,
      objects_table.lookup-insert m.objects new_key object k,
      objects_table.lookup-insert m.objects new_key object new_key,
      objects_table.lookup_cong m.objects new_key k,
      v.owned o k,
      typed,
    )

    new_live :
        (j k : IdentityKey) (o : ℕ)
        → objects_table.lookup_extended (add m gtype pk object).objects j ≡ some (k, o)
        → ((add m gtype pk object).freed k.address ≡ false)
          × (k.address < (add m gtype pk object).next)
    unfolding add
    new_live j k o e = ground (
      arith,
      key_absent,
      objects_table.lookup-insert m.objects new_key object j,
      v.live j k o,
      v.unfreed m.next,
      typed,
    )

    new_distinct :
        (i j k l : IdentityKey) (a b : ℕ)
        → objects_table.lookup_extended (add m gtype pk object).objects i ≡ some (k, a)
        → objects_table.lookup_extended (add m gtype pk object).objects j ≡ some (l, b)
        → k.address ≡ l.address
        → k ≡ l
    unfolding add
    new_distinct i j k l a b e f h = ground (
      arith,
      key_absent,
      objects_table.lookup-insert m.objects new_key object i,
      objects_table.lookup-insert m.objects new_key object j,
      v.live i k a,
      v.live j l b,
      v.distinct i j k l a b,
      typed,
    )

    add_unfreed :
        (a : ℕ) → (add m gtype pk object).next ≤ a → (add m gtype pk object).freed a ≡ false
    unfolding add
    add_unfreed a h = ground (arith, key_absent, v.unfreed a, typed)

    -- An add keeps the invariant if the type is not G_TYPE_NONE, the primary key is an integer, a
    -- string or NULL, and its row is not in the map yet.
    pub add-Inv : Inv (add m gtype pk object)
    unfolding add
    add-Inv = record {
      sound = ground (arith, v.sound);
      owned = new_owned;
      live = new_live;
      distinct = new_distinct;
      unfreed = add_unfreed;
    }

    -- In a map that satisfies the invariant, an object that is added under a row that is not there
    -- yet, with a type other than G_TYPE_NONE and a primary key that is an integer, a string or
    -- NULL, can be removed again by its pointer: no freed key is read, the removal is reported, and
    -- its row is not found any more.
    pub add-remove_object :
        let r = remove_object (add m gtype pk object) object in
        (r.0.faulted ≡ false) × (r.1 ≡ true) × (get r.0 gtype pk ≡ none)
    unfolding add remove_object get identity_key_equal
    add-remove_object = ground (
      arith,
      key_self,
      key_absent,
      v.sound,
      v.unfreed m.next,
      reverse_table.lookup-insert m.object_to_key object new_key object,
      objects_table.lookup-insert m.objects new_key object new_key,
      objects_table.lookup-remove (add m gtype pk object).objects new_key (lookup_key gtype pk),
      keyed_refl platform laws pk keyed,
    )
