-- ===== src/Dialect/Ddl/Types.antt =====
-- The names of types are closed by themselves.
use orm_glib.Base.{
  ℕ, zero, suc, ◌+◌, ◌/◌, ◌%◌, ◌≡◌, refl, Option, none, some, [], ◌∷◌, Text, codes, ltb, Bool-cases,
  inl, inr, arith,
}
use orm_glib.Engine.Driver.{DialectType, sqlite, postgres, mysql}
use orm_glib.Schema.Types.{
  SqlType, integer_type, string_type, other, digits, decimal, varchar, string_get_name, get_name,
}
use orm_glib.Dialect.Ddl.{type_of}
use orm_glib.Dialect.Ddl.Reader.{outside, step, run, IsClosed, enclosed-IsClosed}

-- A class of a program gives a name that is closed.
abbrev pub TypeFits : DialectType → SqlType → Type 0
TypeFits d (other name) = IsClosed (name d)
TypeFits d _ = Unit {0}

abbrev pub TypeFitsOption : DialectType → Option SqlType → Type 0
TypeFitsOption d none = Unit {0}
TypeFitsOption d (some t) = TypeFits d t

step-digit : (n m : ℕ) → step (outside m) (48 + n % 10) ≡ outside m
unfolding step
step-digit n m = ground arith

digit-IsClosed : (n : ℕ) (t : Text) → IsClosed t → IsClosed ((48 + n % 10) ∷ t)
unfolding run
digit-IsClosed n t h = record { at = λ m. rw (step-digit n m) (h.at m) }

digits-IsClosed : (fuel n : ℕ) (t : Text) → IsClosed t → IsClosed (digits fuel n t)
unfolding digits
digits-IsClosed zero n t h = h
digits-IsClosed (suc fuel) n t h = elim (Bool-cases (ltb n 10)) [
  | inl e ↦ rw e (digit-IsClosed n t h)
  | inr e ↦ rw e (digits-IsClosed fuel (n / 10) ((48 + n % 10) ∷ t) (digit-IsClosed n t h))
]

varchar-IsClosed : (n : ℕ) → IsClosed (varchar n)
unfolding run step varchar decimal
varchar-IsClosed n =
    enclosed-IsClosed (codes "VARCHAR(") (decimal n) (codes ")") [] (λ m. refl)
      (digits-IsClosed (suc n) n [] (record { at = λ n. refl })) (λ m. refl)
      (record { at = λ n. refl })

string-IsClosed : (n : ℕ) (d : DialectType) → IsClosed (string_get_name n d)
unfolding run step string_get_name
string-IsClosed n sqlite = (record { at = λ n. refl })
string-IsClosed n postgres = elim (Bool-cases (ltb 0 n)) [
  | inl e ↦ rw e (varchar-IsClosed n)
  | inr e ↦ rw e (record { at = λ n. refl })
]
string-IsClosed n mysql = elim (Bool-cases (ltb 0 n)) [
  | inl e ↦ rw e (varchar-IsClosed n)
  | inr e ↦ rw e (record { at = λ n. refl })
]

get_name-IsClosed : (t : SqlType) (d : DialectType) → TypeFits d t → IsClosed (get_name t d)
unfolding run step get_name
get_name-IsClosed (other name) d h = h
get_name-IsClosed (string_type n) d h = string-IsClosed n d
get_name-IsClosed integer_type mysql h = (record { at = λ n. refl })
get_name-IsClosed integer_type sqlite h = (record { at = λ n. refl })
get_name-IsClosed _ sqlite h = (record { at = λ n. refl })
get_name-IsClosed _ postgres h = (record { at = λ n. refl })
get_name-IsClosed _ mysql h = (record { at = λ n. refl })

pub type_of-IsClosed :
    (d : DialectType) (o : Option SqlType) → TypeFitsOption d o → IsClosed (type_of d o)
unfolding run step type_of
type_of-IsClosed d none h = (record { at = λ n. refl })
type_of-IsClosed d (some t) h = get_name-IsClosed t d h
