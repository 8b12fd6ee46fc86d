-- ===== src/Orm/IdentityMap/Removal.antt =====
-- orm_identity_map_remove_object keeps the two tables together.
use orm_glib.Base.{ℕ, false, none, some, ◌≢◌, ◌≡◌, arith, Option-cases, inl, inr, ◌≤◌, ◌<◌}
use orm_glib.Glib.{lookup}
use orm_glib.Orm.IdentityMap.{Env, IdentityMap, add, get, remove_object, type_none}
use orm_glib.Orm.IdentityMap.Keys.{IdentityKey, IsKeyed}
use orm_glib.Orm.IdentityMap.Invariant.{Inv, add-Inv}
use orm_glib.Core.Value.{Value}

module _ {g : Env} where
  open g use {objects_table, reverse_table, platform, laws}

  module _ (m : IdentityMap g) (v : Inv m) (o : ℕ) where
    -- What remove_object leaves of the two tables.
    removed_owned :
        (a : ℕ) (k : IdentityKey)
        → lookup reverse_table (remove_object m o).0.object_to_key a ≡ some k
        → objects_table.lookup_extended (remove_object m o).0.objects k ≡ some (k, a)
    unfolding remove_object
    removed_owned a k e = elim (Option-cases (lookup reverse_table m.object_to_key o)) [
      | inl missing ↦ ground (arith, missing, v.owned a k)
      | inr (key, known) ↦ ground (
        arith,
        known,
        v.owned o key known,
        v.live key key o,
        v.owned a k,
        reverse_table.lookup-remove m.object_to_key o a,
        objects_table.lookup-remove m.objects key k,
        objects_table.lookup_cong m.objects key k,
        v.distinct key k key k o a,
      )
    ]

    removed_live :
        (j k : IdentityKey) (a : ℕ)
        → objects_table.lookup_extended (remove_object m o).0.objects j ≡ some (k, a)
        → ((remove_object m o).0.freed k.address ≡ false) × (k.address < (remove_object m o).0.next)
    unfolding remove_object
    removed_live j k a e = elim (Option-cases (lookup reverse_table m.object_to_key o)) [
      | inl missing ↦ ground (arith, missing, v.live j k a)
      | inr (key, known) ↦ ground (
        arith,
        known,
        v.owned o key known,
        v.live key key o,
        v.live j k a,
        objects_table.lookup-remove m.objects key j,
        objects_table.lookup-equal m.objects j k a,
        v.distinct key j key k o a,
      )
    ]

    removed_distinct :
        (i j k l : IdentityKey) (a b : ℕ)
        → objects_table.lookup_extended (remove_object m o).0.objects i ≡ some (k, a)
        → objects_table.lookup_extended (remove_object m o).0.objects j ≡ some (l, b)
        → k.address ≡ l.address
        → k ≡ l
    unfolding remove_object
    removed_distinct i j k l a b e f h =
        elim (Option-cases (lookup reverse_table m.object_to_key o)) [
          | inl missing ↦ ground (arith, missing, v.distinct i j k l a b)
          | inr (key, known) ↦ ground (
            arith,
            known,
            v.owned o key known,
            v.live key key o,
            v.distinct i j k l a b,
            objects_table.lookup-remove m.objects key i,
            objects_table.lookup-remove m.objects key j,
          )
        ]

    removed_rest : ((remove_object m o).0.faulted ≡ false) × ((remove_object m o).0.next ≡ m.next)
    unfolding remove_object
    removed_rest = elim (Option-cases (lookup reverse_table m.object_to_key o)) [
      | inl missing ↦ ground (arith, missing, v.sound)
      | inr (key, known) ↦ ground (arith, known, v.sound, v.owned o key known, v.live key key o)
    ]

    removed_unfreed : (a : ℕ) → m.next ≤ a → (remove_object m o).0.freed a ≡ false
    unfolding remove_object
    removed_unfreed a h = elim (Option-cases (lookup reverse_table m.object_to_key o)) [
      | inl missing ↦ ground (arith, missing, v.unfreed a)
      | inr (key, known) ↦ ground (arith, known, v.unfreed a, v.owned o key known, v.live key key o)
    ]

    -- In a map that satisfies the invariant, removing an object by its pointer reads no freed key
    -- and keeps the invariant.
    pub remove_object-Inv : Inv (remove_object m o).0
    remove_object-Inv = record {
      sound = removed_rest.0;
      owned = removed_owned;
      live = removed_live;
      distinct = removed_distinct;
      unfreed = λ a h. removed_unfreed a (rw removed_rest.1 at h);
    }

  -- In a map that satisfies the invariant, an add keeps it if the type is not G_TYPE_NONE, the
  -- primary key is an integer, a string or NULL, and its row is not in the map yet; removing any
  -- object by its pointer keeps it too.
  pub operation-Inv :
      (m : IdentityMap g) (gtype : ℕ) (pk : Value) (object o : ℕ)
      → Inv m
      → IsKeyed pk
      → gtype ≢ type_none
      → get m gtype pk ≡ none
      → Inv (add m gtype pk object) × Inv (remove_object m o).0
  operation-Inv m gtype pk object o v keyed typed fresh =
      (add-Inv m v gtype pk object keyed typed fresh, remove_object-Inv m v o)
