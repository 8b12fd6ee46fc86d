-- ===== src/Core/Value/Samples.antt =====
-- A platform that meets the laws, and the theorems about values at it.
use orm_glib.Base.{
  ℕ, ◌+◌, ◌%◌, ◌≡◌, ◌≢◌, refl, Bool, true, false, arith, if◌then◌else◌, ◌==◌, ◌&&◌, ltb, Text, [],
  ◌∷◌, text_eq,
}
use orm_glib.Base.Int.{ℤ, pos, negsuc}
use orm_glib.Core.Value.{null, integer, float, boolean, compare, value_equal, compare_numbers}
use orm_glib.Core.Value.Order.{compare_order, value_equal_intransitive}
use orm_glib.Core.Platform.{Platform, PlatformLaws, IsPreorder, Sign, below, same, above, flip}

-- The number 0 stands for NaN.
abbrev toy_float_ltb : ℕ → ℕ → Bool
toy_float_ltb a b = ltb 0 a && ltb 0 b && ltb a b

-- strcmp on bytes.
unfoldable pub strcmp : Text → Text → Sign
strcmp [] [] = same
strcmp [] (b ∷ t) = below
strcmp (a ∷ s) [] = above
strcmp (a ∷ s) (b ∷ t) = if ltb a b then below else if ltb b a then above else strcmp s t

strcmp-flip : (s t : Text) → strcmp t s ≡ flip (strcmp s t)
unfolding strcmp
strcmp-flip [] [] = refl
strcmp-flip [] (b ∷ t) = refl
strcmp-flip (a ∷ s) [] = refl
strcmp-flip (a ∷ s) (b ∷ t) = ground (arith, strcmp-flip s t)

strcmp-chains : (s t u : Text) → strcmp s t ≢ above → strcmp t u ≢ above → strcmp s u ≢ above
unfolding strcmp
strcmp-chains [] t [] h k = ground arith
strcmp-chains [] t (c ∷ u) h k = ground arith
strcmp-chains (a ∷ s) [] u h k = absurd (h refl)
strcmp-chains (a ∷ s) (b ∷ t) [] h k = absurd (k refl)
strcmp-chains (a ∷ s) (b ∷ t) (c ∷ u) h k = ground (arith, strcmp-chains s t u)

strcmp_equal : (s t : Text) → strcmp s t ≡ same → s ≡ t
unfolding strcmp
strcmp_equal [] [] h = refl
strcmp_equal [] (b ∷ t) h = cc
strcmp_equal (a ∷ s) [] h = cc
strcmp_equal (a ∷ s) (b ∷ t) h = ground (arith, strcmp_equal s t)

number_flips : (a b : ℕ) → compare_numbers b a ≡ flip (compare_numbers a b)
number_flips a b = ground arith

number_chains :
    (a b c : ℕ)
    → compare_numbers a b ≢ above
    → compare_numbers b c ≢ above
    → compare_numbers a c ≢ above
number_chains a b c h k = ground arith

-- One digit, behind a minus sign for a negative number.
abbrev pub toy_int_to_text : ℤ → Text
toy_int_to_text (pos n) = (48 + n % 10) ∷ []
toy_int_to_text (negsuc n) = 45 ∷ (48 + (n + 1) % 10) ∷ []

abbrev pub toy_platform : Platform
unfolding strcmp text_eq
toy_platform = record {
  float_ltb = toy_float_ltb;
  is_nan = λ a. a == 0;
  strcmp0 = strcmp;
  bytes_compare = strcmp;
  datetime_compare = λ a b. compare_numbers a b;
  strcasecmp_eq = text_eq;
  int_to_text = toy_int_to_text;
}

strcmp_order : IsPreorder strcmp
strcmp_order = record { flips = strcmp-flip; chains = strcmp-chains }

toy_float_chains :
    (a b c : ℕ)
    → (b == 0) ≡ false
    → toy_float_ltb b a ≡ false
    → toy_float_ltb c b ≡ false
    → toy_float_ltb c a ≡ false
toy_float_chains a b c n h k = ground arith

pub toy_platform_laws : PlatformLaws toy_platform
unfolding strcmp text_eq
toy_platform_laws = record {
  float_asymm = λ a b h. ground arith;
  nan_unordered = λ a b h. ground arith;
  float_chains = toy_float_chains;
  strcmp0_order = strcmp_order;
  strcmp0_equal = strcmp_equal;
  bytes_order = strcmp_order;
  datetime_order = record { flips = number_flips; chains = number_chains };
}

pub toy_platform-int_to_text : (n : ℤ) → toy_platform.int_to_text n ≡ toy_int_to_text n
unfolding toy_platform
toy_platform-int_to_text n = refl

null_first : compare toy_platform null (integer (negsuc 4)) ≡ below
unfolding compare strcmp text_eq
null_first = refl

compare_order_example :
    (compare toy_platform (float 2) (float 1) ≡ flip (compare toy_platform (float 1) (float 2)))
    × (compare toy_platform (integer (pos 3)) (boolean true) ≢ above)
unfolding compare strcmp text_eq
compare_order_example =
    compare_order toy_platform toy_platform_laws (integer (pos 3)) (float 7) (boolean true)
      (float 1) (float 2) refl (λ e. cc) (λ e. cc)

nan_equals_both :
    (value_equal toy_platform (float 1) (float 0) ≡ true)
    × (value_equal toy_platform (float 0) (float 2) ≡ true)
    × (value_equal toy_platform (float 1) (float 2) ≡ false)
unfolding strcmp text_eq
nan_equals_both = value_equal_intransitive toy_platform toy_platform_laws 0 1 2 refl refl
