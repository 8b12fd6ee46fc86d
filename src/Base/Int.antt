-- ===== src/Base/Int.antt =====
-- Signed integers over the native numbers, for gint64 values that do not leave their range.
use Prim.Native.Nat.{ℕ}
use mathlib.Core.Path.{◌≡◌}
use mathlib.Core.Bool.{Bool, true, false}
use native.Mathlib.Omega.{arith}
use orm_glib.Base.Tests.{ltb, ◌==◌}

-- `negsuc n` is -(n + 1).
pub data ℤ : Type 0 where
  pos : ℕ → ℤ
  negsuc : ℕ → ℤ

unfoldable pub int_eq : ℤ → ℤ → Bool
int_eq (pos a) (pos b) = a == b
int_eq (negsuc a) (negsuc b) = a == b
int_eq (pos a) (negsuc b) = false
int_eq (negsuc a) (pos b) = false

-- a < b.
unfoldable pub int_ltb : ℤ → ℤ → Bool
int_ltb (pos a) (pos b) = ltb a b
int_ltb (negsuc a) (negsuc b) = ltb b a
int_ltb (pos a) (negsuc b) = false
int_ltb (negsuc a) (pos b) = true

pub int_eq_refl : (a : ℤ) → int_eq a a ≡ true
unfolding int_eq
int_eq_refl (pos a) = ground arith
int_eq_refl (negsuc a) = ground arith

pub int_eq→≡ : (a b : ℤ) → int_eq a b ≡ true → a ≡ b
unfolding int_eq
int_eq→≡ (pos a) (pos b) h = ground arith
int_eq→≡ (negsuc a) (negsuc b) h = ground arith
int_eq→≡ (pos a) (negsuc b) h = cc
int_eq→≡ (negsuc a) (pos b) h = cc

pub int_ltb_trans : (a b c : ℤ) → int_ltb a b ≡ true → int_ltb b c ≡ true → int_ltb a c ≡ true
unfolding int_ltb
int_ltb_trans a b c h k = ground arith

pub int_ltb_asymm : (a b : ℤ) → int_ltb a b ≡ true → int_ltb b a ≡ false
unfolding int_ltb
int_ltb_asymm a b h = ground arith

pub int_ltb-ne : (a b : ℤ) → int_ltb a b ≡ true → (int_eq a b ≡ false) × (int_eq b a ≡ false)
unfolding int_ltb int_eq
int_ltb-ne a b h = ground arith
