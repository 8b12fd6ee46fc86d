-- ===== src/Core/Value.antt =====
-- core/orm-value.c: OrmValue, its comparison and its accessors. A double is its bit pattern and a
-- GDateTime an opaque handle; what C and GLib do with them is a parameter, `Platform`.

pub mod Order
pub mod Samples
use orm_glib.Base.{
  ℕ, Bool, true, false, Option, none, some, if◌then◌else◌, ◌==◌, ◌||◌, not, ltb, Text, codes,
}
use orm_glib.Base.Int.{ℤ, pos, int_eq, int_ltb}
use orm_glib.Core.Platform.{Platform, Sign, below, same, above}

-- OrmValueType with the union's member. `gboolean` is read as a Boolean.
pub data Value : Type 0 where
  null : Value
  integer : ℤ → Value
  float : ℕ → Value
  string : Text → Value
  blob : Text → Value
  boolean : Bool → Value
  datetime : ℕ → Value

-- The numbers of the enumeration OrmValueType.
unfoldable pub value_type : Value → ℕ
value_type null = 0
value_type (integer _) = 1
value_type (float _) = 2
value_type (string _) = 3
value_type (blob _) = 4
value_type (boolean _) = 5
value_type (datetime _) = 6

unfoldable pub is_null : Value → Bool
is_null null = true
is_null _ = false

unfoldable pub get_integer : Value → ℤ
get_integer (integer n) = n
get_integer _ = pos 0

unfoldable pub get_string : Value → Option Text
get_string (string s) = some s
get_string _ = none

-- `a < b ? -1 : a > b ? 1 : 0`.
abbrev pub sign_of : Bool → Bool → Sign
sign_of lt gt = if lt then below else if gt then above else same

abbrev pub compare_numbers : ℕ → ℕ → Sign
compare_numbers a b = sign_of (ltb a b) (ltb b a)

abbrev pub bool_number : Bool → ℕ
bool_number false = 0
bool_number true = 1

module _ (p : Platform) where
  open p use {float_ltb, strcmp0, bytes_compare, datetime_compare, strcasecmp_eq}

  unfoldable pub get_boolean : Value → Bool
  get_boolean (integer n) = not (int_eq n (pos 0))
  get_boolean (string s) =
      strcasecmp_eq s (codes "t")
      || strcasecmp_eq s (codes "true")
      || strcasecmp_eq s (codes "y")
      || strcasecmp_eq s (codes "yes")
      || (elim (strcmp0 s (codes "1")) [ same ↦ true | _ ↦ false ])
  get_boolean (boolean b) = b
  get_boolean _ = false

  -- The second switch of orm_value_compare, for two values of one type.
  unfoldable pub compare_payload : Value → Value → Sign
  compare_payload (integer a) (integer b) = sign_of (int_ltb a b) (int_ltb b a)
  compare_payload (float a) (float b) = sign_of (float_ltb a b) (float_ltb b a)
  compare_payload (string a) (string b) = strcmp0 a b
  compare_payload (blob a) (blob b) = bytes_compare a b
  compare_payload (boolean a) (boolean b) = compare_numbers (bool_number a) (bool_number b)
  compare_payload (datetime a) (datetime b) = datetime_compare a b
  compare_payload _ _ = same

  -- The sign of orm_value_compare on two values that are not NULL pointers.
  unfoldable pub compare : Value → Value → Sign
  unfolding compare_payload value_type
  compare a b =
      if value_type a == value_type b
      then compare_payload a b
      else compare_numbers (value_type a) (value_type b)

  unfoldable pub value_equal : Value → Value → Bool
  unfolding compare
  value_equal a b = elim (compare a b) [ same ↦ true | _ ↦ false ]
