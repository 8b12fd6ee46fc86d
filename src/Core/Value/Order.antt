-- ===== src/Core/Value/Order.antt =====
-- orm_value_compare is a total preorder on values that hold no NaN, and NaN breaks it.
use orm_glib.Base.{ℕ, ◌≡◌, true, ◌≢◌, refl, false, arith, ℕ_discrete}
use orm_glib.Base.Int.{ℤ, int_ltb}
use orm_glib.Core.Value.{
  Value, null, integer, float, string, blob, boolean, datetime, value_type, compare,
  compare_payload, value_equal, sign_of, compare_numbers,
}
use orm_glib.Core.Platform.{Platform, PlatformLaws, above, flip}

-- The value is not a double that is a NaN.
abbrev pub HasOrder : Platform → Value → Type 0
HasOrder p (float x) = p.is_nan x ≡ false
HasOrder p v = Unit {0}

compare_numbers_chains :
    (a b c : ℕ)
    → compare_numbers a b ≢ above
    → compare_numbers b c ≢ above
    → compare_numbers a c ≢ above
compare_numbers_chains a b c h k = ground arith

int_chains :
    (a b c : ℤ)
    → sign_of (int_ltb a b) (int_ltb b a) ≢ above
    → sign_of (int_ltb b c) (int_ltb c b) ≢ above
    → sign_of (int_ltb a c) (int_ltb c a) ≢ above
unfolding int_ltb
int_chains a b c h k = ground arith

int_flips :
    (a b : ℤ) → sign_of (int_ltb b a) (int_ltb a b) ≡ flip (sign_of (int_ltb a b) (int_ltb b a))
unfolding int_ltb
int_flips a b = ground arith

module _ (p : Platform) (l : PlatformLaws p) where
  open l use {float_asymm, nan_unordered, float_chains, strcmp0_order, bytes_order, datetime_order}

  payload_flips :
      (a b : Value)
      → value_type a ≡ value_type b
      → compare_payload p b a ≡ flip (compare_payload p a b)
  unfolding compare_payload value_type
  payload_flips null null e = refl
  payload_flips (integer a) (integer b) e = int_flips a b
  payload_flips (float a) (float b) e = ground (arith, float_asymm a b, float_asymm b a)
  payload_flips (string a) (string b) e = strcmp0_order.flips a b
  payload_flips (blob a) (blob b) e = bytes_order.flips a b
  payload_flips (boolean a) (boolean b) e = ground arith
  payload_flips (datetime a) (datetime b) e = datetime_order.flips a b
  payload_flips _ _ e = absurd (omega arith)

  compare-flip : (a b : Value) → compare p b a ≡ flip (compare p a b)
  unfolding compare
  compare-flip a b = elim (ℕ_discrete (value_type a) (value_type b)) [
    | yes e ↦ ground (arith, payload_flips a b e)
    | no e ↦ ground arith
  ]

  payload_chains :
      (a b c : Value)
      → value_type a ≡ value_type b
      → value_type b ≡ value_type c
      → HasOrder p b
      → compare_payload p a b ≢ above
      → compare_payload p b c ≢ above
      → compare_payload p a c ≢ above
  unfolding compare_payload value_type
  payload_chains null null null e f n h k = h
  payload_chains (integer a) (integer b) (integer c) e f n h k = int_chains a b c h k
  payload_chains (float a) (float b) (float c) e f n h k =
      ground (arith, float_chains a b c, float_asymm c a, float_asymm b a, float_asymm c b)
  payload_chains (string a) (string b) (string c) e f n h k = strcmp0_order.chains a b c h k
  payload_chains (blob a) (blob b) (blob c) e f n h k = bytes_order.chains a b c h k
  payload_chains (boolean a) (boolean b) (boolean c) e f n h k = ground arith
  payload_chains (datetime a) (datetime b) (datetime c) e f n h k = datetime_order.chains a b c h k
  payload_chains _ _ _ e f n h k = absurd (omega arith)

  compare-chains :
      (a b c : Value)
      → HasOrder p b
      → compare p a b ≢ above
      → compare p b c ≢ above
      → compare p a c ≢ above
  unfolding compare
  compare-chains a b c n h k = elim (ℕ_discrete (value_type a) (value_type b)) [
    | yes e ↦ elim (ℕ_discrete (value_type b) (value_type c)) [
      | yes f ↦ ground (arith, payload_chains a b c e f n)
      | no f ↦ ground arith
    ]
    | no e ↦ ground arith
  ]

  -- Swapping the arguments of orm_value_compare turns the sign of its result, for all values x and y;
  -- and if a is not above b, b is not above c and the value b is no NaN, then a is not above c, also
  -- across types.
  pub compare_order :
      (a b c x y : Value)
      → HasOrder p b
      → compare p a b ≢ above
      → compare p b c ≢ above
      → (compare p y x ≡ flip (compare p x y)) × (compare p a c ≢ above)
  compare_order a b c x y n h k = (compare-flip x y, compare-chains a b c n h k)

  -- A NaN is equal, by orm_value_equal, to every double.
  pub value_equal-nan : (x y : ℕ) → p.is_nan x ≡ true → value_equal p (float x) (float y) ≡ true
  unfolding value_equal value_type
  value_equal-nan x y h = ground (arith, nan_unordered x y h)

  -- orm_value_equal is no equivalence: if x is a NaN and y is less than z, then x equals both, and
  -- y does not equal z.
  pub value_equal_intransitive :
      (x y z : ℕ)
      → p.is_nan x ≡ true
      → p.float_ltb y z ≡ true
      → (value_equal p (float y) (float x) ≡ true)
        × (value_equal p (float x) (float z) ≡ true)
        × (value_equal p (float y) (float z) ≡ false)
  unfolding value_equal value_type
  value_equal_intransitive x y z h lt = ground (arith, nan_unordered x y h, nan_unordered x z h)
