-- ===== src/Core/Platform.antt =====
-- What the code takes from C and from GLib on doubles, strings, bytes and dates: the operations as
-- a record, and the documented behaviour that the theorems rely on.
use orm_glib.Base.{ℕ, ◌≡◌, ◌≢◌, Bool, true, false, Text}
use orm_glib.Base.Int.{ℤ}

-- The sign of a C comparison result: negative, zero or positive.
pub data Sign : Type 0 where
  below same above : Sign

abbrev pub flip : Sign → Sign
flip below = above
flip same = same
flip above = below

-- A three-way comparison by a total preorder.
pub record IsPreorder {A : Type 0} (cmp : A → A → Sign) : Type 0 where
  pub flips : (a b : A) → cmp b a ≡ flip (cmp a b)
  pub chains : (a b c : A) → cmp a b ≢ above → cmp b c ≢ above → cmp a c ≢ above

-- `float_ltb` is C's `<` on doubles; `strcasecmp_eq a b` is g_ascii_strcasecmp (a, b) == 0,
-- and `int_to_text` prints a gint64 in decimal.
pub record Platform : Type 0 where
  pub float_ltb : ℕ → ℕ → Bool
  pub is_nan : ℕ → Bool
  pub strcmp0 : Text → Text → Sign
  pub bytes_compare : Text → Text → Sign
  pub datetime_compare : ℕ → ℕ → Sign
  pub strcasecmp_eq : Text → Text → Bool
  pub int_to_text : ℤ → Text

-- IEEE 754's `<`, and comparisons that are orders.
pub record PlatformLaws (p : Platform) : Type 0 where
  pub float_asymm : (a b : ℕ) → p.float_ltb a b ≡ true → p.float_ltb b a ≡ false
  pub nan_unordered :
      (a b : ℕ) → p.is_nan a ≡ true → (p.float_ltb a b ≡ false) × (p.float_ltb b a ≡ false)
  pub float_chains :
      (a b c : ℕ)
      → p.is_nan b ≡ false
      → p.float_ltb b a ≡ false
      → p.float_ltb c b ≡ false
      → p.float_ltb c a ≡ false
  pub strcmp0_order : IsPreorder p.strcmp0
  pub strcmp0_equal : (a b : Text) → p.strcmp0 a b ≡ same → a ≡ b
  pub bytes_order : IsPreorder p.bytes_compare
  pub datetime_order : IsPreorder p.datetime_compare
