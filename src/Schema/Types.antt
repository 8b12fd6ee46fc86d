-- ===== src/Schema/Types.antt =====
-- types/: the types of columns, with their names in each dialect and the conversions of values.
use orm_glib.Base.{
  ℕ, zero, suc, ◌+◌, ◌/◌, ◌%◌, not, Option, none, some, [], ◌∷◌, ◌++◌, Text, codes, if◌then◌else◌,
  ltb,
}
use orm_glib.Base.Int.{pos, int_eq}
use orm_glib.Core.Value.{Value, integer, boolean}
use orm_glib.Engine.Driver.{DialectType, sqlite, postgres, mysql}

-- "%u": the digits of a number, the last ones in `after`. A number has at most as many digits as it
-- counts, and one.
unfoldable pub digits : ℕ → ℕ → Text → Text
digits zero n after = after
digits (suc fuel) n after =
    let more = digits fuel (n / 10) ((48 + n % 10) ∷ after) in
    if ltb n 10 then (48 + n % 10) ∷ after else more

unfoldable pub decimal : ℕ → Text
unfolding digits
decimal n = digits (suc n) n []

-- OrmSqlType with the classes of types/; `other` is a class of a program, with its function get_name.
pub data SqlType : Type 0 where
  integer_type bigint_type boolean_type float_type double_type : SqlType
  blob_type datetime_type text_type : SqlType
  string_type : ℕ → SqlType
  other : (DialectType → Text) → SqlType

unfoldable pub integer_get_name : DialectType → Text
integer_get_name mysql = codes "INT"
integer_get_name _ = codes "INTEGER"

unfoldable pub bigint_get_name : DialectType → Text
bigint_get_name sqlite = codes "INTEGER"
bigint_get_name _ = codes "BIGINT"

unfoldable pub boolean_get_name : DialectType → Text
boolean_get_name sqlite = codes "INTEGER"
boolean_get_name postgres = codes "BOOLEAN"
boolean_get_name mysql = codes "TINYINT(1)"

unfoldable pub float_get_name : DialectType → Text
float_get_name mysql = codes "FLOAT"
float_get_name _ = codes "REAL"

unfoldable pub double_get_name : DialectType → Text
double_get_name sqlite = codes "REAL"
double_get_name postgres = codes "DOUBLE PRECISION"
double_get_name mysql = codes "DOUBLE"

unfoldable pub blob_get_name : DialectType → Text
blob_get_name postgres = codes "BYTEA"
blob_get_name _ = codes "BLOB"

unfoldable pub datetime_get_name : DialectType → Text
datetime_get_name sqlite = codes "TEXT"
datetime_get_name postgres = codes "TIMESTAMP"
datetime_get_name mysql = codes "DATETIME"

unfoldable pub varchar : ℕ → Text
unfolding decimal
varchar n = codes "VARCHAR(" ++ (decimal n ++ codes ")")

-- The name that is kept is the same in both dialects.
unfoldable pub string_get_name : ℕ → DialectType → Text
unfolding varchar
string_get_name n sqlite = codes "TEXT"
string_get_name n _ = if ltb 0 n then varchar n else codes "TEXT"

-- orm_sql_type_get_name.
unfoldable pub get_name : SqlType → DialectType → Text
unfolding integer_get_name bigint_get_name boolean_get_name float_get_name double_get_name
    blob_get_name datetime_get_name string_get_name
get_name integer_type d = integer_get_name d
get_name bigint_type d = bigint_get_name d
get_name boolean_type d = boolean_get_name d
get_name float_type d = float_get_name d
get_name double_type d = double_get_name d
get_name blob_type d = blob_get_name d
get_name datetime_type d = datetime_get_name d
get_name text_type d = codes "TEXT"
get_name (string_type n) d = string_get_name n d
get_name (other name) d = name d

-- The conversions of OrmBooleanType; NULL stands for a value that stays as it is.
unfoldable pub boolean_bind_processor : Value → Option Value
boolean_bind_processor (boolean b) = some (integer (if b then pos 1 else pos 0))
boolean_bind_processor _ = none

unfoldable pub boolean_result_processor : Value → Option Value
unfolding int_eq
boolean_result_processor (integer n) = some (boolean (not (int_eq n (pos 0))))
boolean_result_processor _ = none
