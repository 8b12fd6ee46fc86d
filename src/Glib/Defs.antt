-- ===== src/Glib/Defs.antt =====
-- GHashTable as an interface: operations, and the behaviour that GLib documents for them.
use orm_glib.Base.{◌≡◌, Bool, true, Option, none, some, List, [], any, if◌then◌else◌, is_some}

-- A key_equal_func. It is symmetric and transitive on the keys; it need not be reflexive.
pub record KeyEqual (K : Type 0) : Type 0 where
  pub equal : K → K → Bool
  pub equal_symm : (a b : K) → equal a b ≡ true → equal b a ≡ true
  pub equal_trans : (a b c : K) → equal a b ≡ true → equal b c ≡ true → equal a c ≡ true

-- The key that the table holds once `k` was inserted: a key that is there already stays.
abbrev pub kept : {K V : Type 0} → Option (K × V) → K → K
kept none k = k
kept (some (j, _)) k = j

-- `lookup_extended` is g_hash_table_lookup_extended: the key as it is stored, and its value.
pub record HashTable (K V : Type 0) (e : KeyEqual K) : Type 1 where
  pub Table : Type 0
  pub empty : Table
  pub lookup_extended : Table → K → Option (K × V)
  pub insert : Table → K → V → Table
  pub remove : Table → K → Table
  pub keys : Table → List K
  pub lookup-empty : (k : K) → lookup_extended empty k ≡ none
  pub lookup-insert :
      (t : Table) (k : K) (v : V) (j : K)
      → lookup_extended (insert t k v) j
        ≡ (if e.equal k j then some (kept (lookup_extended t k) k, v) else lookup_extended t j)
  pub lookup-remove :
      (t : Table) (k j : K)
      → lookup_extended (remove t k) j ≡ (if e.equal k j then none else lookup_extended t j)
  pub lookup-equal :
      (t : Table) (k j : K) (v : V) → lookup_extended t k ≡ some (j, v) → e.equal j k ≡ true
  pub lookup_cong :
      (t : Table) (j k : K) → e.equal j k ≡ true → lookup_extended t j ≡ lookup_extended t k
  pub keys-empty : keys empty ≡ []
  pub any-keys :
      (t : Table) (k : K) → any (λ j. e.equal j k) (keys t) ≡ is_some (lookup_extended t k)
