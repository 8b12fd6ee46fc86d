-- ===== src/Engine/Url/Network.antt =====
-- The URL of a network database, written from its parts and parsed.
use orm_glib.Base.{
  ℕ, ◌-◌, ◌^◌, ◌<◌, ◌≡◌, refl, ap, ◌∙◌, ◌⊎◌, inl, inr, true, false, Option, none, some, [], ◌∷◌,
  ◌++◌, append-nil, append_assoc, Text, codes, text_eq, ◌==◌, All, arith,
}
use orm_glib.Base.Int.{ℤ, pos}
use orm_glib.Engine.Driver.{DialectType, postgres, mysql}
use orm_glib.Engine.Url.{
  split_char, is_digit, read_digits, read_signed, minimum, strtoll, to_gint, Engine, engine_init,
  parsed, unescape, credentials, address, parse_address, parse_network, parse_scheme, with_url,
  parse_url,
}

-- A text without a character.
abbrev pub Lacks : ℕ → Text → Type 0
Lacks c s = All (λ a. (a == c) ≡ false) s

split_char-append : (c : ℕ) (x y : Text) → Lacks c x → split_char c (x ++ c ∷ y) ≡ some (x, y)
unfolding split_char
split_char-append c [] y h = ground arith
split_char-append c (a ∷ x) y (h, hs) = ground (arith, h, split_char-append c x y hs)

split_char-none : (c : ℕ) (x : Text) → Lacks c x → split_char c x ≡ none
unfolding split_char
split_char-none c [] h = refl
split_char-none c (a ∷ x) (h, hs) = ground (arith, h, split_char-none c x hs)

Lacks-append : (c : ℕ) (x y : Text) → Lacks c x → Lacks c y → Lacks c (x ++ y)
Lacks-append c [] y h k = k
Lacks-append c (a ∷ x) y (h, hs) k = (h, Lacks-append c x y hs k)

-- The parts of a URL. A port is written in digits.
pub record Parts : Type 0 where
  pub userinfo : Option (Text × Option Text)
  pub host : Text
  pub port : Option Text
  pub database : Text

abbrev pub userinfo_text : Option (Text × Option Text) → Text
userinfo_text none = []
userinfo_text (some (user, none)) = user ++ codes "@"
userinfo_text (some (user, some password)) = user ++ 58 ∷ (password ++ codes "@")

abbrev pub port_text : Option Text → Text
port_text none = []
port_text (some digits) = 58 ∷ digits

-- [user[:password]@]host[:port]/database.
abbrev pub parts_text : Parts → Text
parts_text p = userinfo_text p.userinfo ++ (p.host ++ (port_text p.port ++ 47 ∷ p.database))

abbrev pub UserInfoFits : Option (Text × Option Text) → Type 0
UserInfoFits none = Unit
UserInfoFits (some (user, none)) = Lacks 64 user × Lacks 58 user
UserInfoFits (some (user, some password)) = Lacks 64 user × Lacks 58 user × Lacks 64 password

abbrev pub IsDigits : Text → Type 0
IsDigits s = All (λ c. is_digit c ≡ true) s

abbrev pub PortFits : Option Text → Type 0
PortFits none = Unit
PortFits (some digits) = IsDigits digits × (read_digits 0 digits < 2 ^ 31)

-- With credentials the database may hold an `@`, which no URL without them may.
abbrev pub DatabaseFits : Option (Text × Option Text) → Text → Type 0
DatabaseFits none s = Lacks 64 s
DatabaseFits (some _) s = Unit

pub record PartsFit (p : Parts) : Type 0 where
  pub userinfo : UserInfoFits p.userinfo
  pub host_at : Lacks 64 p.host
  pub host_colon : Lacks 58 p.host
  pub host_slash : Lacks 47 p.host
  pub port : PortFits p.port
  pub database : DatabaseFits p.userinfo p.database

abbrev pub port_number : ℕ → Option Text → ℤ
port_number default_port none = pos default_port
port_number default_port (some digits) = pos (read_digits 0 digits)

read_digits-bounded :
    (s : Text) (n : ℕ) → IsDigits s → n < 2 ^ 31 → to_gint (pos (minimum n (2 ^ 63 - 1))) ≡ pos n
unfolding to_gint
read_digits-bounded s n d h = ground arith

to_gint_zero : to_gint (pos 0) ≡ pos 0
unfolding to_gint
to_gint_zero = refl

strtoll-digits :
    (s : Text) → IsDigits s → read_digits 0 s < 2 ^ 31 → to_gint (strtoll s) ≡ pos (read_digits 0 s)
unfolding strtoll read_signed is_digit
strtoll-digits [] d h = to_gint_zero
strtoll-digits (c ∷ s) (d, ds) h =
    ground (arith, d, read_digits-bounded (c ∷ s) (read_digits 0 (c ∷ s)) (d, ds) h)

digits-Lacks : (c : ℕ) (s : Text) → (c < 48) ⊎ (57 < c) → IsDigits s → Lacks c s
unfolding is_digit
digits-Lacks c [] h d = tt
digits-Lacks c (a ∷ s) h (d, ds) = (ground (arith, h, d), digits-Lacks c s h ds)

port-Lacks : (c : ℕ) (o : Option Text) → (c < 48) ⊎ (58 < c) → PortFits o → Lacks c (port_text o)
port-Lacks c none h p = tt
port-Lacks c (some s) h (d, b) = (ground (arith, h), digits-Lacks c s (ground (arith, h)) d)

module _ (decode : Text → Option Text) where
  -- What the userinfo sets.
  abbrev pub with_userinfo : Option (Text × Option Text) → Engine → Engine
  with_userinfo none e = record e { username = none; password = none }
  with_userinfo (some (user, none)) e = record e {
    username = some (unescape decode user);
    password = none;
  }
  with_userinfo (some (user, some password)) e = record e {
    username = some (unescape decode user);
    password = some (unescape decode password);
  }

  abbrev pub with_address : ℕ → Parts → Engine → Engine
  with_address default_port p e = record e {
    host = some p.host;
    port = port_number default_port p.port;
    database = some p.database;
  }

  address-parts :
      (n : ℕ) (host : Text) (port : Option Text) (e : Engine)
      → Lacks 58 host
      → PortFits port
      → address decode n (host ++ port_text port) e
        ≡ record e { host = some host; port = port_number n port }
  unfolding address
  address-parts n host none e h p = ground (arith, append-nil host, split_char-none 58 host h)
  address-parts n host (some digits) e h (d, b) =
      ground (arith, split_char-append 58 host digits h, strtoll-digits digits d b)

  parse_address-parts :
      (n : ℕ) (p : Parts) (e : Engine)
      → PartsFit p
      → parse_address decode n (p.host ++ (port_text p.port ++ 47 ∷ p.database)) e
        ≡ parsed (with_address n p e)
  unfolding parse_address
  parse_address-parts n p e f = ground (
    arith,
    append_assoc p.host (port_text p.port) (47 ∷ p.database),
    split_char-append 47 (p.host ++ port_text p.port) p.database (
        Lacks-append 47 p.host (port_text p.port) f.host_slash
          (port-Lacks 47 p.port (inl (omega arith)) f.port)),
    address-parts n p.host p.port e f.host_colon f.port,
  )

  address-Lacks :
      (p : Parts)
      → Lacks 64 p.host
      → PortFits p.port
      → Lacks 64 p.database
      → Lacks 64 (p.host ++ (port_text p.port ++ 47 ∷ p.database))
  address-Lacks p h k l = Lacks-append 64 p.host (port_text p.port ++ 47 ∷ p.database) h (
      Lacks-append 64 (port_text p.port) (47 ∷ p.database)
        (port-Lacks 64 p.port (inr (omega arith)) k) (refl, l))

  -- The credentials are cut off before the address is looked at.
  parse_network-userinfo :
      (n : ℕ) (u : Option (Text × Option Text)) (rest : Text) (e : Engine)
      → UserInfoFits u
      → DatabaseFits u rest
      → parse_network decode n (userinfo_text u ++ rest) e
        ≡ parse_address decode n rest (with_userinfo u e)
  unfolding parse_network credentials
  parse_network-userinfo n none rest e f l = ground (arith, split_char-none 64 rest l)
  parse_network-userinfo n (some (user, none)) rest e (at, colon) l = ground (
    arith,
    append_assoc user (64 ∷ []) rest,
    split_char-append 64 user rest at,
    split_char-none 58 user colon,
  )
  parse_network-userinfo n (some (user, some password)) rest e (at, colon, at') l =
      let whole = user ++ 58 ∷ password in
      ground (
        arith,
        append_assoc user (58 ∷ (password ++ 64 ∷ [])) rest,
        append_assoc password (64 ∷ []) rest,
        append_assoc user (58 ∷ password) (64 ∷ rest),
        split_char-append 64 whole rest (Lacks-append 64 user (58 ∷ password) at (refl, at')),
        split_char-append 58 user password colon,
      )

  rest-Lacks :
      (u : Option (Text × Option Text)) (p : Parts)
      → Lacks 64 p.host
      → PortFits p.port
      → DatabaseFits u p.database
      → DatabaseFits u (p.host ++ (port_text p.port ++ 47 ∷ p.database))
  rest-Lacks none p h k l = address-Lacks p h k l
  rest-Lacks (some _) p h k l = tt

  parse_network-parts :
      (n : ℕ) (p : Parts) (e : Engine)
      → PartsFit p
      → parse_network decode n (parts_text p) e
        ≡ parsed (with_address n p (with_userinfo p.userinfo e))
  parse_network-parts n p e f =
      parse_network-userinfo n p.userinfo (p.host ++ (port_text p.port ++ 47 ∷ p.database)) e
        f.userinfo (rest-Lacks p.userinfo p f.host_at f.port f.database)
      ∙ parse_address-parts n p (with_userinfo p.userinfo e) f

-- The schemes of the network databases.
pub data Scheme : Type 0 where
  postgresql postgres_scheme mysql_scheme mariadb : Scheme

abbrev pub scheme_text : Scheme → Text
scheme_text postgresql = codes "postgresql"
scheme_text postgres_scheme = codes "postgres"
scheme_text mysql_scheme = codes "mysql"
scheme_text mariadb = codes "mariadb"

abbrev pub dialect_of : Scheme → DialectType
dialect_of postgresql = postgres
dialect_of postgres_scheme = postgres
dialect_of mysql_scheme = mysql
dialect_of mariadb = mysql

abbrev pub default_port : Scheme → ℕ
default_port postgresql = 5432
default_port postgres_scheme = 5432
default_port mysql_scheme = 3306
default_port mariadb = 3306

abbrev pub url_text : Scheme → Parts → Text
url_text s p = scheme_text s ++ (codes "://" ++ parts_text p)

-- The engine as it is when the branch of the scheme is entered.
abbrev pub started : Scheme → Engine
unfolding engine_init
started s = record engine_init { dialect_type = dialect_of s }

abbrev pub engine_of : (Text → Option Text) → Scheme → Parts → Engine
engine_of decode s p =
    record (with_address decode (default_port s) p (with_userinfo decode p.userinfo (started s))) {
      url = some (url_text s p);
    }

-- A URL of PostgreSQL or MySQL that is written from its parts is parsed into these: the host, the
-- database, the user and the password, percent-decoded, and the port, or the default port of the
-- dialect where none is written. The user holds neither `@` nor `:`, the password no `@`, the host
-- none of `@`, `:` and `/`, the port is a number below 2^31, and the database holds no `@` unless
-- there are credentials.
pub parse_url-url_text :
    (decode : Text → Option Text) (s : Scheme) (p : Parts)
    → PartsFit p
    → parse_url decode (url_text s p) ≡ parsed (engine_of decode s p)
unfolding parse_url parse_scheme engine_init text_eq
parse_url-url_text decode postgresql p f =
    ap (with_url decode (url_text postgresql p))
      (parse_network-parts decode (default_port postgresql) p (started postgresql) f)
parse_url-url_text decode postgres_scheme p f =
    ap (with_url decode (url_text postgres_scheme p))
      (parse_network-parts decode (default_port postgres_scheme) p (started postgres_scheme) f)
parse_url-url_text decode mysql_scheme p f =
    ap (with_url decode (url_text mysql_scheme p))
      (parse_network-parts decode (default_port mysql_scheme) p (started mysql_scheme) f)
parse_url-url_text decode mariadb p f =
    ap (with_url decode (url_text mariadb p))
      (parse_network-parts decode (default_port mariadb) p (started mariadb) f)
