-- ===== src/Glib/Lemmas.antt =====
-- Tables keyed by pointers (g_direct_hash, g_direct_equal), as sets and as maps.
use orm_glib.Base.{
  ℕ, ◌≡◌, sym, ◌∙◌, Bool, true, false, Option, none, some, [], any, ◌==◌, is_some, arith, Text,
  text_eq, text_eq→≡, text_eq_refl,
}
use orm_glib.Glib.Defs.{KeyEqual, HashTable}

pub direct_symm : (a b : ℕ) → (a == b) ≡ true → (b == a) ≡ true
direct_symm a b h = ground arith

pub direct_trans : (a b c : ℕ) → (a == b) ≡ true → (b == c) ≡ true → (a == c) ≡ true
direct_trans a b c h k = ground arith

-- g_direct_equal. A GObject pointer and a GType are numbers.
abbrev pub direct_equal : KeyEqual ℕ
direct_equal = record {
  equal = λ a b. a == b;
  equal_symm = direct_symm;
  equal_trans = direct_trans;
}

-- A lookup that drops the key, g_hash_table_lookup.
abbrev pub value_of : {K V : Type 0} → Option (K × V) → Option V
value_of none = none
value_of (some (_, v)) = some v

module _ {K V : Type 0} {e : KeyEqual K} (h : HashTable K V e) where
  open h use {Table, lookup_extended, keys, any-keys}

  abbrev pub lookup : Table → K → Option V
  lookup t k = value_of (lookup_extended t k)

  abbrev pub contains : Table → K → Bool
  contains t k = is_some (lookup_extended t k)

  -- A table that lists no key holds none.
  pub contains-keys_nil : (t : Table) (k : K) → keys t ≡ [] → contains t k ≡ false
  contains-keys_nil t k none_listed =
      sym (any-keys t k) ∙ (λ i. any (λ j. e.equal j k) (none_listed i))

pub text_symm : (a b : Text) → text_eq a b ≡ true → text_eq b a ≡ true
text_symm a b h = rw (text_eq→≡ a b h) (text_eq_refl b)

pub text_trans : (a b c : Text) → text_eq a b ≡ true → text_eq b c ≡ true → text_eq a c ≡ true
text_trans a b c h k = rw (text_eq→≡ a b h) k

-- g_str_equal, behind g_str_hash.
abbrev pub str_equal : KeyEqual Text
str_equal = record { equal = text_eq; equal_symm = text_symm; equal_trans = text_trans }
