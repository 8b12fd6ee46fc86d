-- ===== src/Dialect/Quote.antt =====
-- How a database reads a quoted name, and what it reads of the two ways to quote.
use orm_glib.Base.{
  ℕ, zero, suc, ◌≡◌, ◌≢◌, ◌↔◌, ◌⊎◌, refl, subst, Bool, true, false, Option, none, some, [], ◌∷◌,
  ◌++◌, append_assoc, length, length-append, ==_refl, ==→≡, ◌+◌, ◌≤◌, ◌<◌, Text, if◌then◌else◌,
  ◌==◌, Bool-cases, inl, inr, arith,
}
use orm_glib.Engine.Driver.{DialectType, sqlite, postgres, mysql}
use orm_glib.Dialect.{
  identifier_quote_char, string_quote_char, double, quote_identifier, quote_string,
  sql_quote_identifier,
}

abbrev pub cons_name : ℕ → Option (Text × Text) → Option (Text × Text)
cons_name c none = none
cons_name c (some (s, rest)) = some (c ∷ s, rest)

-- A doubled quote stands for one, a single one ends the name. `behind` tells that a quote stands just
-- before.
unfoldable pub read_from : ℕ → Bool → Text → Option (Text × Text)
read_from q true [] = some ([], [])
read_from q false [] = none
read_from q true (c ∷ s) =
    let inside = read_from q false s in if c == q then cons_name q inside else some ([], c ∷ s)
read_from q false (c ∷ s) =
    let behind = read_from q true s in
    let inside = cons_name c (read_from q false s) in if c == q then behind else inside

unfoldable pub read_quoted : ℕ → Text → Option (Text × Text)
unfolding read_from
read_quoted q [] = none
read_quoted q (c ∷ s) = if c == q then read_from q false s else none

-- What follows does not begin with the quote.
abbrev pub IsApart : ℕ → Text → Type 0
IsApart q [] = Unit
IsApart q (c ∷ s) = (c == q) ≡ false

read_behind : (q : ℕ) (rest : Text) → IsApart q rest → read_from q true rest ≡ some ([], rest)
unfolding read_from
read_behind q [] h = refl
read_behind q (c ∷ s) h = ground (arith, h)

read_pair :
    (q c : ℕ) (t s rest : Text)
    → (c == q) ≡ true
    → read_from q false t ≡ some (s, rest)
    → read_from q false (q ∷ c ∷ t) ≡ some (c ∷ s, rest)
unfolding read_from
read_pair q c t s rest e h = ground (arith, ==_refl q, ==→≡ c q e)

double_quote : (q c : ℕ) (s : Text) → (c == q) ≡ true → double q (c ∷ s) ≡ q ∷ c ∷ double q s
unfolding double
double_quote q c s e = rw e refl

read_from-double :
    (q : ℕ) (s rest : Text)
    → IsApart q rest
    → read_from q false (double q s ++ q ∷ rest) ≡ some (s, rest)
unfolding read_from double
read_from-double q [] rest h = ground (arith, read_behind q rest h)
read_from-double q (c ∷ s) rest h = elim (Bool-cases (c == q)) [
  | inl e ↦
      rw (double_quote q c s e)
        (read_pair q c (double q s ++ q ∷ rest) s rest e (read_from-double q s rest h))
  | inr e ↦ ground (arith, e, read_from-double q s rest h)
]

read_quoted-double :
    (q : ℕ) (s rest : Text)
    → IsApart q rest
    → read_quoted q (q ∷ ((double q s ++ q ∷ []) ++ rest)) ≡ some (s, rest)
unfolding read_quoted
read_quoted-double q s rest h =
    ground (arith, append_assoc (double q s) (q ∷ []) rest, read_from-double q s rest h)

-- How often a character is in a text.
abbrev pub count : ℕ → Text → ℕ
count q [] = 0
count q (c ∷ s) = (if c == q then 1 else 0) + count q s

abbrev opening : Bool → ℕ
opening true = 0
opening false = 1

cons_name-some :
    (c : ℕ) (o : Option (Text × Text)) (n r : Text)
    → cons_name c o ≡ some (n, r)
    → (m : Text) × (o ≡ some (m, r)) × (n ≡ c ∷ m)
cons_name-some c none n r h = cc
cons_name-some c (some (m, t)) n r h = (m, ground arith, ground arith)

Zero-cases : (n : ℕ) → (n ≡ 0) ⊎ (0 < n)
Zero-cases zero = inl refl
Zero-cases (suc n) = inr (omega arith)

-- A reader takes two characters for each quote in the name.
read_from_lengths :
    (q : ℕ) (b : Bool) (u n r : Text)
    → read_from q b u ≡ some (n, r)
    → length n + count q n + length r + opening b ≤ length u
unfolding read_from
read_from_lengths q true [] n r h = ground arith
read_from_lengths q false [] n r h = cc
read_from_lengths q true (c ∷ s) n r h = elim (Bool-cases (c == q)) [
  | inl e ↦
      (let (m, found, whole) = cons_name-some q (read_from q false s) n r (rw e at h) in
        rw whole (ground (arith, ==_refl q, read_from_lengths q false s m r found)))
  | inr e ↦ ground (arith, e)
]
read_from_lengths q false (c ∷ s) n r h = elim (Bool-cases (c == q)) [
  | inl e ↦ omega (arith, read_from_lengths q true s n r (rw e at h))
  | inr e ↦
      (let (m, found, whole) = cons_name-some c (read_from q false s) n r (rw e at h) in
        rw whole (ground (arith, e, read_from_lengths q false s m r found)))
]

read_from-short :
    (q : ℕ) (s rest : Text)
    → 0 < count q s
    → read_quoted q (q ∷ ((s ++ q ∷ []) ++ rest)) ≢ some (s, rest)
unfolding read_quoted
read_from-short q s rest h e =
    let plain : read_from q false (s ++ q ∷ rest) ≡ some (s, rest) =
      ground (arith, append_assoc s (q ∷ []) rest, ==_refl q) in
    omega
      (arith, read_from_lengths q false (s ++ q ∷ rest) s rest plain, length-append s (q ∷ rest))

double-absent : (q : ℕ) (s : Text) → count q s ≡ 0 → double q s ≡ s
unfolding double
double-absent q [] h = refl
double-absent q (c ∷ s) h = elim (Bool-cases (c == q)) [
  | inl e ↦ absurd (ground (arith, e))
  | inr e ↦ ground (arith, e, double-absent q s)
]

sql_quote_identifier_lem :
    (d : DialectType) (s : Text)
    → sql_quote_identifier d s ≡ identifier_quote_char d ∷ (s ++ identifier_quote_char d ∷ [])
unfolding sql_quote_identifier identifier_quote_char
sql_quote_identifier_lem mysql s = refl
sql_quote_identifier_lem sqlite s = refl
sql_quote_identifier_lem postgres s = refl

-- What reads back of the text between two quotes: a name without the quote, and no other.
read_plain :
    (q : ℕ) (s rest : Text)
    → IsApart q rest
    → (read_quoted q (q ∷ ((s ++ q ∷ []) ++ rest)) ≡ some (s, rest)) ↔ (count q s ≡ 0)
read_plain q s rest h =
    (λ e. none_of e, λ z. subst Reads (double-absent q s z) (read_quoted-double q s rest h))
  where
    Reads : Text → Type 0
    Reads t = read_quoted q (q ∷ ((t ++ q ∷ []) ++ rest)) ≡ some (s, rest)

    none_of : read_quoted q (q ∷ ((s ++ q ∷ []) ++ rest)) ≡ some (s, rest) → count q s ≡ 0
    none_of e = elim (Zero-cases (count q s)) [
      | inl z ↦ z
      | inr p ↦ absurd (read_from-short q s rest p e)
    ]

-- A name that the dialect quotes is read back as it is, whatever characters it holds, by a database
-- of that dialect, which goes on behind it, if what follows does not begin with the quote; so is a
-- string, by a database that takes no character but the quote for special. A name that a statement
-- of sql/ quotes is read back exactly if it does not hold the quote: with one in it, the database
-- reads another name or another rest.
pub read_quoted-quote :
    (d : DialectType) (s rest : Text)
    → IsApart (identifier_quote_char d) rest
    → IsApart (string_quote_char d) rest
    → (read_quoted (identifier_quote_char d) (quote_identifier d s ++ rest) ≡ some (s, rest))
      × (read_quoted (string_quote_char d) (quote_string d s ++ rest) ≡ some (s, rest))
      × ((read_quoted (identifier_quote_char d) (sql_quote_identifier d s ++ rest) ≡ some (s, rest))
          ↔ (count (identifier_quote_char d) s ≡ 0))
unfolding quote_identifier quote_string
read_quoted-quote d s rest h k = (
  read_quoted-double (identifier_quote_char d) s rest h,
  read_quoted-double (string_quote_char d) s rest k,
  rw (sql_quote_identifier_lem d s) (read_plain (identifier_quote_char d) s rest h),
)
