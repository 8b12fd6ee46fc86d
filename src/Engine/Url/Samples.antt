-- ===== src/Engine/Url/Samples.antt =====
-- URLs as an application writes them.
use orm_glib.Base.{
  ◌≡◌, refl, Option, none, some, Text, codes, text_eq, is_prefix, if◌then◌else◌, arith,
}
use orm_glib.Base.Int.{ℤ, pos}
use orm_glib.Core.Error.{invalid_url}
use orm_glib.Engine.Url.{Parsed, parsed, refused, is_digit, read_digits, parse_url, new_sqlite}
use orm_glib.Engine.Url.Network.{
  Parts, PartsFit, postgresql, url_text, engine_of, parse_url-url_text,
}
use orm_glib.Engine.Url.Sqlite.{opened, memory, rooted, opened-new_sqlite}

-- Nothing is percent-encoded.
abbrev plain : Text → Option Text
plain s = none

abbrev shop : Parts
shop = record {
  userinfo = some (codes "bob", some (codes "p/w:1"));
  host = codes "db.local";
  port = some (codes "6432");
  database = codes "shop";
}

shop_fits : PartsFit shop
unfolding is_digit read_digits
shop_fits = record {
  userinfo = ground arith;
  host_at = ground arith;
  host_colon = ground arith;
  host_slash = ground arith;
  port = ground arith;
  database = tt;
}

parse_url-url_text_example :
    parse_url plain (url_text postgresql shop) ≡ parsed (engine_of plain postgresql shop)
parse_url-url_text_example = parse_url-url_text plain postgresql shop shop_fits

opened-new_sqlite_example :
    opened (new_sqlite plain (codes "local.db"))
    ≡ some (
        if text_eq (rooted (codes "local.db")) (codes "/:memory:")
        then memory
        else rooted (codes "local.db"))
opened-new_sqlite_example = opened-new_sqlite plain (codes "local.db")

relative_path : opened (new_sqlite plain (codes "local.db")) ≡ some (codes "/local.db")
unfolding new_sqlite text_eq is_prefix
relative_path = refl

-- An `@` in the name of the database is taken for the end of credentials.
at_in_database : parse_url plain (codes "postgresql://host/a@b") ≡ refused invalid_url
unfolding parse_url text_eq is_prefix
at_in_database = refl

no_scheme : parse_url plain (codes "shop.db") ≡ refused invalid_url
unfolding parse_url text_eq is_prefix
no_scheme = refl

-- A port is cut off to 32 bits.
abbrev port_of : Parsed → ℤ
port_of (parsed e) = e.port
port_of (refused _) = pos 0

port_wraps : port_of (parse_url plain (codes "mysql://h:4294970602/d")) ≡ pos 3306
unfolding parse_url text_eq is_prefix
port_wraps = refl
