-- ===== src/Orm/IdentityMap/Keys.antt =====
-- The composite key of the identity map: identity_key_equal of orm/orm-identity-map.c.
use orm_glib.Base.{ℕ, Text, Bool, true, false, ◌&&◌, ◌==◌, ◌≡◌, refl, arith}
use orm_glib.Base.Int.{int_eq, int_eq→≡, int_eq_refl}
use orm_glib.Core.Value.{Value, null, integer, float, string}
use orm_glib.Core.Platform.{Platform, PlatformLaws, same, Sign}
use orm_glib.Glib.{KeyEqual}

-- `address` is where the key was allocated.
pub record IdentityKey : Type 0 where
  pub address : ℕ
  pub gtype : ℕ
  pub primary_key : Value

abbrev pub is_same : Sign → Bool
is_same same = true
is_same _ = false

-- A key finds itself exactly if its primary key is an integer, a string or NULL.
abbrev pub IsKeyed : Value → Type 0
IsKeyed (integer _) = Unit {0}
IsKeyed (string _) = Unit {0}
IsKeyed null = Unit {0}
IsKeyed _ = ⊥

module _ (p : Platform) where
  -- The test of the value types, then the switch: its default is FALSE.
  unfoldable pub primary_key_equal : Value → Value → Bool
  primary_key_equal (integer a) (integer b) = int_eq a b
  primary_key_equal (string a) (string b) = is_same (p.strcmp0 a b)
  primary_key_equal null null = true
  primary_key_equal _ _ = false

  unfoldable pub identity_key_equal : IdentityKey → IdentityKey → Bool
  unfolding primary_key_equal
  identity_key_equal a b = a.gtype == b.gtype && primary_key_equal a.primary_key b.primary_key

module _ (p : Platform) (l : PlatformLaws p) where
  open l use {strcmp0_order}

  text_symm : (s t : Text) → is_same (p.strcmp0 s t) ≡ true → is_same (p.strcmp0 t s) ≡ true
  text_symm s t h = ground (arith, strcmp0_order.flips s t)

  text_trans :
      (s t u : Text)
      → is_same (p.strcmp0 s t) ≡ true
      → is_same (p.strcmp0 t u) ≡ true
      → is_same (p.strcmp0 s u) ≡ true
  text_trans s t u h k = ground (
    arith,
    strcmp0_order.flips s u,
    strcmp0_order.flips s t,
    strcmp0_order.flips t u,
    strcmp0_order.chains s t u,
    strcmp0_order.chains u t s,
  )

  primary_key_symm : (a b : Value) → primary_key_equal p a b ≡ true → primary_key_equal p b a ≡ true
  unfolding primary_key_equal
  primary_key_symm (integer a) (integer b) h = rw (int_eq→≡ a b h) (int_eq_refl b)
  primary_key_symm (string a) (string b) h = text_symm a b h
  primary_key_symm null null h = h
  primary_key_symm _ _ h = cc

  primary_key_trans :
      (a b c : Value)
      → primary_key_equal p a b ≡ true
      → primary_key_equal p b c ≡ true
      → primary_key_equal p a c ≡ true
  unfolding primary_key_equal
  primary_key_trans (integer a) (integer b) (integer c) h k = rw (int_eq→≡ a b h) k
  primary_key_trans (string a) (string b) (string c) h k = text_trans a b c h k
  primary_key_trans null null null h k = h
  primary_key_trans _ _ _ h k = cc

  pub identity_symm :
      (a b : IdentityKey) → identity_key_equal p a b ≡ true → identity_key_equal p b a ≡ true
  unfolding identity_key_equal
  identity_symm a b h = ground (arith, primary_key_symm a.primary_key b.primary_key)

  pub identity_trans :
      (a b c : IdentityKey)
      → identity_key_equal p a b ≡ true
      → identity_key_equal p b c ≡ true
      → identity_key_equal p a c ≡ true
  unfolding identity_key_equal
  identity_trans a b c h k =
      ground (arith, primary_key_trans a.primary_key b.primary_key c.primary_key)

  -- identity_key_equal, as the key_equal_func of a hash table.
  abbrev pub identity_equal : KeyEqual IdentityKey
  identity_equal = record {
    equal = λ a b. identity_key_equal p a b;
    equal_symm = identity_symm;
    equal_trans = identity_trans;
  }

  pub keyed_refl : (v : Value) → IsKeyed v → primary_key_equal p v v ≡ true
  unfolding primary_key_equal
  keyed_refl (integer n) k = int_eq_refl n
  keyed_refl (string s) k = ground (arith, strcmp0_order.flips s s)
  keyed_refl null k = refl
  keyed_refl _ k = absurd k

  -- Every other primary key is different from every key, itself included.
  pub unkeyed_differs :
      (v w : Value)
      → ¬ IsKeyed v
      → (primary_key_equal p v w ≡ false) × (primary_key_equal p w v ≡ false)
  unfolding primary_key_equal
  unkeyed_differs (integer a) w n = absurd (n tt)
  unkeyed_differs (string a) w n = absurd (n tt)
  unkeyed_differs null w n = absurd (n tt)
  unkeyed_differs (float a) null n = (refl, refl)
  unkeyed_differs _ _ n = ground arith
