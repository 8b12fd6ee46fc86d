-- ===== src/Orm/IdentityMap.antt =====
-- orm/orm-identity-map.c. The two hash tables are GLib's, so they are parameters of `Env`. A key is
-- allocated by every add, and belongs to the table `objects`: GLib frees it when its entry goes, and
-- frees the key that is passed when an equal key is there. `object_to_key` only points to keys, so
-- the model gives each key an address and notes which addresses were freed.
pub mod Keys
pub mod Laws
pub mod Invariant
pub mod Removal
pub mod Aliasing
pub mod Samples
use orm_glib.Base.{
  ℕ, suc, Bool, true, false, ◌&&◌, ◌||◌, Option, none, some, List, [], ◌∷◌, if◌then◌else◌, ◌==◌,
}
use orm_glib.Core.Value.{Value}
use orm_glib.Core.Platform.{Platform, PlatformLaws}
use orm_glib.Glib.{HashTable, direct_equal, lookup, contains}
use Keys.{IdentityKey, identity_equal}

-- G_TYPE_NONE.
abbrev pub type_none : ℕ
type_none = 4

-- GLib's part: the two tables, and g_type_is_a.
pub record Env : Type 1 where
  pub platform : Platform
  pub laws : PlatformLaws platform
  pub objects_table : HashTable IdentityKey ℕ (identity_equal platform laws)
  pub reverse_table : HashTable ℕ IdentityKey direct_equal
  pub type_is_a : ℕ → ℕ → Bool

-- A GObject is its address. `next` is the address of the next key, `faulted` tells that a freed key
-- was read.
pub record IdentityMap (g : Env) : Type 0 where
  pub objects : g.objects_table.Table
  pub object_to_key : g.reverse_table.Table
  pub next : ℕ
  pub freed : ℕ → Bool
  pub faulted : Bool

-- The key on the stack of a lookup, at the address 0.
abbrev pub lookup_key : ℕ → Value → IdentityKey
lookup_key gtype pk = record { address = 0; gtype = gtype; primary_key = pk }

abbrev pub mark : (ℕ → Bool) → ℕ → ℕ → Bool
mark freed a b = a == b || freed b

abbrev prepend : Option ℕ → List ℕ → List ℕ
prepend none l = l
prepend (some object) l = object ∷ l

module _ (g : Env) where
  open g use {objects_table, reverse_table, type_is_a}

  unfoldable pub identity_map_new : IdentityMap g
  identity_map_new = record {
    objects = objects_table.empty;
    object_to_key = reverse_table.empty;
    next = 1;
    freed = λ a. false;
    faulted = false;
  }

module _ {g : Env} where
  open g use {objects_table, reverse_table, type_is_a}

  -- identity_key_new. A copied value is the same value.
  abbrev pub identity_key_new : IdentityMap g → ℕ → Value → IdentityKey
  identity_key_new m gtype pk = record { address = m.next; gtype = gtype; primary_key = pk }

  unfoldable pub add : IdentityMap g → ℕ → Value → ℕ → IdentityMap g
  add m gtype pk object =
      let key = identity_key_new m gtype pk in
      if gtype == type_none then m else record m {
        objects = objects_table.insert m.objects key object;
        object_to_key = reverse_table.insert m.object_to_key object key;
        next = suc m.next;
        freed = if contains objects_table m.objects key then mark m.freed m.next else m.freed;
      }

  unfoldable pub get : IdentityMap g → ℕ → Value → Option ℕ
  get m gtype pk =
      if gtype == type_none then none else lookup objects_table m.objects (lookup_key gtype pk)

  unfoldable pub contains_key : IdentityMap g → ℕ → Value → Bool
  contains_key m gtype pk =
      if gtype == type_none then false else contains objects_table m.objects (lookup_key gtype pk)

  -- g_hash_table_remove on `objects`: the stored key is freed.
  abbrev remove_entry :
      IdentityMap g → IdentityKey → Option (IdentityKey × ℕ) → IdentityMap g × Bool
  remove_entry m key none = (record m { objects = objects_table.remove m.objects key }, false)
  remove_entry m key (some (stored, object)) = (
    record m { objects = objects_table.remove m.objects key; freed = mark m.freed stored.address },
    true,
  )

  abbrev forget_object : IdentityMap g → Option ℕ → IdentityMap g
  forget_object m none = m
  forget_object m (some object) = record m {
    object_to_key = reverse_table.remove m.object_to_key object;
  }

  unfoldable pub remove : IdentityMap g → ℕ → Value → IdentityMap g × Bool
  remove m gtype pk =
      let key = lookup_key gtype pk in
      let entry = objects_table.lookup_extended m.objects key in
      if gtype == type_none
      then (m, false)
      else remove_entry (forget_object m (lookup objects_table m.objects key)) key entry

  abbrev remove_known : IdentityMap g → ℕ → Option IdentityKey → IdentityMap g × Bool
  remove_known m object none = (m, false)
  remove_known m object (some key) =
      if m.freed key.address
      then (record m { faulted = true }, false)
      else remove_entry (record m { object_to_key = reverse_table.remove m.object_to_key object })
          key (objects_table.lookup_extended m.objects key)

  -- Reading a key that was freed is the fault.
  unfoldable pub remove_object : IdentityMap g → ℕ → IdentityMap g × Bool
  remove_object m object = remove_known m object (lookup reverse_table m.object_to_key object)

  abbrev free_all : IdentityMap g → List IdentityKey → ℕ → Bool
  free_all m [] a = m.freed a
  free_all m (k ∷ ks) a = k.address == a || free_all m ks a

  unfoldable pub clear : IdentityMap g → IdentityMap g
  clear m = record m {
    objects = objects_table.empty;
    object_to_key = reverse_table.empty;
    freed = free_all m (objects_table.keys m.objects);
  }

  -- collect_objects, called for each entry in turn.
  unfoldable pub collect_objects : IdentityMap g → ℕ → List IdentityKey → List ℕ → List ℕ
  collect_objects m filter_type [] result = result
  collect_objects m filter_type (k ∷ ks) result = collect_objects m filter_type ks (
      if filter_type == type_none || type_is_a k.gtype filter_type
      then prepend (lookup objects_table m.objects k) result
      else result)

  unfoldable pub get_all : IdentityMap g → ℕ → List ℕ
  unfolding collect_objects
  get_all m gtype = collect_objects m gtype (objects_table.keys m.objects) []
