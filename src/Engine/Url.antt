-- ===== src/Engine/Url.antt =====
-- engine/orm-engine.c: the URL of a database, orm_engine_parse_url, with both network backends
-- compiled in, and orm_engine_new_sqlite.
pub mod Network
pub mod Sqlite
mod Samples
use orm_glib.Base.{
  ℕ, zero, suc, ◌+◌, ◌-◌, ◌*◌, ◌%◌, ◌^◌, Bool, true, false, ◌&&◌, ◌||◌, Option, none, some, List,
  [], ◌∷◌, ◌++◌, length, Text, codes, text_eq, is_prefix, drop, if◌then◌else◌, ltb, leb, ◌==◌,
}
use orm_glib.Base.Int.{ℤ, pos, negsuc}
use orm_glib.Core.Error.{Error, invalid_url}
use orm_glib.Engine.Driver.{DialectType, sqlite, postgres, mysql}

abbrev pub cons_before : ℕ → Option (Text × Text) → Option (Text × Text)
cons_before a none = none
cons_before a (some (x, y)) = some (a ∷ x, y)

-- strchr (s, c): what stands before and after the first `c`.
unfoldable pub split_char : ℕ → Text → Option (Text × Text)
split_char c [] = none
split_char c (a ∷ s) =
    let later = cons_before a (split_char c s) in if a == c then some ([], s) else later

-- strstr (s, p): what stands before and after it.
unfoldable pub split_text : Text → Text → Option (Text × Text)
unfolding is_prefix
split_text p [] = if is_prefix p [] then some ([], []) else none
split_text p (a ∷ s) =
    let later = cons_before a (split_text p s) in
    if is_prefix p (a ∷ s) then some ([], drop (length p) (a ∷ s)) else later

-- g_ascii_strtoll in base 10: white space, a sign and digits, cut off at the ends of gint64.
abbrev is_space : ℕ → Bool
is_space c = c == 32 || (leb 9 c && leb c 13)

unfoldable pub is_digit : ℕ → Bool
is_digit c = leb 48 c && leb c 57

unfoldable pub read_digits : ℕ → Text → ℕ
unfolding is_digit
read_digits n [] = n
read_digits n (c ∷ s) =
    let more = read_digits (10 * n + (c - 48)) s in if is_digit c then more else n

abbrev negative : ℕ → ℤ
negative zero = pos 0
negative (suc n) = negsuc n

abbrev pub minimum : ℕ → ℕ → ℕ
minimum a b = if ltb a b then a else b

unfoldable pub read_signed : Text → ℤ
unfolding read_digits
read_signed [] = pos 0
read_signed (c ∷ s) =
    if c == 45
    then negative (minimum (read_digits 0 s) (2 ^ 63))
    else if c == 43
    then pos (minimum (read_digits 0 s) (2 ^ 63 - 1))
    else pos (minimum (read_digits 0 (c ∷ s)) (2 ^ 63 - 1))

unfoldable pub strtoll : Text → ℤ
unfolding read_signed
strtoll [] = pos 0
strtoll (c ∷ s) = let skipped = strtoll s in if is_space c then skipped else read_signed (c ∷ s)

-- (gint) on a gint64, in two's complement.
abbrev pub signed_word : ℕ → ℤ
signed_word m = if ltb m (2 ^ 31) then pos m else negsuc (2 ^ 32 - m - 1)

unfoldable pub to_gint : ℤ → ℤ
to_gint (pos n) = signed_word (n % 2 ^ 32)
to_gint (negsuc n) = signed_word (2 ^ 32 - 1 - n % 2 ^ 32)

-- OrmEngine; a string is NULL until it is set.
pub record Engine : Type 0 where
  pub url : Option Text
  pub dialect_type : DialectType
  pub database_path : Option Text
  pub host : Option Text
  pub port : ℤ
  pub username : Option Text
  pub password : Option Text
  pub database : Option Text

unfoldable pub engine_init : Engine
engine_init = record {
  url = none;
  dialect_type = sqlite;
  database_path = none;
  host = none;
  port = pos 0;
  username = none;
  password = none;
  database = none;
}

-- FALSE with the error that was set.
pub data Parsed : Type 0 where
  parsed : Engine → Parsed
  refused : Error → Parsed

-- orm_uri_component_unescape, over g_uri_unescape_string, which gives NULL for a text that is not
-- percent-encoded.
unfoldable pub unescape : (Text → Option Text) → Text → Text
unescape decode s = elim (decode s) [ none ↦ s | some t ↦ t ]

module _ (decode : Text → Option Text) where
  -- The credentials before the `@`: the user, and the password behind a colon.
  unfoldable pub credentials : Text → Engine → Engine
  unfolding split_char unescape
  credentials s e = elim (split_char 58 s) [
    | some (user, password) ↦ record e {
      username = some (unescape decode user);
      password = some (unescape decode password);
    }
    | none ↦ record e { username = some (unescape decode s); password = none }
  ]

  -- host[:port] before the slash.
  unfoldable pub address : ℕ → Text → Engine → Engine
  unfolding split_char to_gint strtoll
  address default_port s e = elim (split_char 58 s) [
    | some (host, port) ↦ record e { host = some host; port = to_gint (strtoll port) }
    | none ↦ record e { host = some s; port = pos default_port }
  ]

  -- host[:port]/database. strtoll stops at the slash.
  unfoldable pub parse_address : ℕ → Text → Engine → Parsed
  unfolding split_char address
  parse_address default_port s e = elim (split_char 47 s) [
    | none ↦ refused invalid_url
    | some (before, database) ↦
        parsed (record (address default_port before e) { database = some database })
  ]

  -- The branch of a network database: [user[:password]@]host[:port]/database.
  unfoldable pub parse_network : ℕ → Text → Engine → Parsed
  unfolding split_char credentials parse_address
  parse_network default_port s e = elim (split_char 64 s) [
    | some (userinfo, rest) ↦ parse_address default_port rest (credentials userinfo e)
    | none ↦ parse_address default_port s (record e { username = none; password = none })
  ]

  -- The branch of SQLite.
  unfoldable pub parse_sqlite : Text → Engine → Parsed
  parse_sqlite s e =
      if text_eq s (codes "/:memory:") || text_eq s (codes ":memory:")
      then parsed (record e { database_path = some (codes ":memory:") })
      else parsed (record e { database_path = some s })

  unfoldable pub parse_scheme : Text → Text → Engine → Parsed
  unfolding parse_sqlite parse_network
  parse_scheme scheme s e =
      if text_eq scheme (codes "sqlite")
      then parse_sqlite s (record e { dialect_type = sqlite })
      else if text_eq scheme (codes "postgresql") || text_eq scheme (codes "postgres")
      then parse_network 5432 s (record e { dialect_type = postgres })
      else if text_eq scheme (codes "mysql") || text_eq scheme (codes "mariadb")
      then parse_network 3306 s (record e { dialect_type = mysql })
      else refused invalid_url

  abbrev pub with_url : Text → Parsed → Parsed
  with_url url (parsed e) = parsed (record e { url = some url })
  with_url url (refused error) = refused error

  -- orm_engine_parse_url of a new engine.
  unfoldable pub parse_url : Text → Parsed
  unfolding split_text parse_scheme engine_init
  parse_url url = elim (split_text (codes "://") url) [
    | none ↦ refused invalid_url
    | some (scheme, s) ↦ with_url url (parse_scheme scheme s engine_init)
  ]

  -- The URL that orm_engine_new_sqlite makes.
  unfoldable pub sqlite_url : Text → Text
  sqlite_url path =
      if text_eq path (codes ":memory:")
      then codes "sqlite:///:memory:"
      else if is_prefix (codes "/") path
      then codes "sqlite://" ++ path
      else codes "sqlite:///" ++ path

  unfoldable pub new_sqlite : Text → Parsed
  unfolding parse_url sqlite_url
  new_sqlite path = parse_url (sqlite_url path)
