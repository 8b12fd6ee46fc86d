-- ===== src/Engine/Url/Sqlite.antt =====
-- What orm_engine_new_sqlite makes of a path.
use orm_glib.Base.{
  ◌≡◌, refl, false, ◌||◌, Option, none, some, ◌∷◌, ◌++◌, Text, codes, text_eq, text_eq→≡, is_prefix,
  if◌then◌else◌, Bool-cases, inl, inr, arith,
}
use orm_glib.Engine.Url.{
  Parsed, parsed, refused, parse_url, parse_scheme, parse_sqlite, sqlite_url, new_sqlite,
}

-- The file that the engine will open.
abbrev pub opened : Parsed → Option Text
opened (parsed e) = e.database_path
opened (refused _) = none

abbrev pub memory : Text
memory = codes ":memory:"

-- A path as orm_engine_new_sqlite passes it on: the root stands before a relative one.
abbrev pub rooted : Text → Text
rooted path = if is_prefix (codes "/") path then path else 47 ∷ path

opened-url :
    (decode : Text → Option Text) (s : Text)
    → opened (parse_url decode (codes "sqlite://" ++ s))
      ≡ some (if text_eq s (codes "/:memory:") || text_eq s memory then memory else s)
unfolding parse_url parse_scheme parse_sqlite text_eq is_prefix
opened-url decode s = ground arith

rooted_plain : (path : Text) → text_eq (47 ∷ path) memory ≡ false
unfolding text_eq
rooted_plain path = refl

in_memory :
    (decode : Text → Option Text)
    → opened (new_sqlite decode memory)
      ≡ some (if text_eq (rooted memory) (codes "/:memory:") then memory else rooted memory)
unfolding new_sqlite sqlite_url is_prefix parse_url parse_scheme parse_sqlite text_eq
in_memory decode = refl

-- The engine of orm_engine_new_sqlite opens an absolute path as it is, and a database in memory for
-- ":memory:" and for "/:memory:"; of any other path it opens the absolute one with "/" before it: a
-- relative path is never opened.
pub opened-new_sqlite :
    (decode : Text → Option Text) (path : Text)
    → opened (new_sqlite decode path)
      ≡ some (if text_eq (rooted path) (codes "/:memory:") then memory else rooted path)
unfolding new_sqlite sqlite_url is_prefix
opened-new_sqlite decode path = elim (Bool-cases (text_eq path memory)) [
  | inl e ↦ let same = text_eq→≡ path memory e in rw same (in_memory decode)
  | inr e ↦
      ground (arith, e, opened-url decode path, opened-url decode (47 ∷ path), rooted_plain path)
]
