-- ===== src/Export/Json/Lexing.antt =====
-- How the reader goes through the pieces of a document, one behind the other.
use orm_glib.Base.{
  ℕ, zero, suc, ◌*◌, ◌≡◌, refl, ap, ◌∙◌, sym, Bool, true, false, ◌||◌, List, [], ◌∷◌, ◌++◌,
  append_assoc, append-nil, Text, if◌then◌else◌, ◌==◌, arith,
}
use orm_glib.Export.Json.{
  JsonExporter, spaces, newline, space, escape_char, escape_chars, append_string,
}
use orm_glib.Export.Json.Reader.{
  Token, symbol, word, quoted, between, broken, in_word, in_string, escaped, hex, Lexer, is_symbol,
  is_space, outside, read_escape, read_digit, step, run,
}

-- The reader is outside strings, and has read these tokens; a word may still go on if `ended` is
-- false.
abbrev settled : Lexer → Lexer
settled (between, ts) = (between, ts)
settled (in_word w, ts) = (between, ts ++ word w ∷ [])
settled (_, ts) = (broken, ts)

abbrev pub At : Bool → Lexer → List Token → Type 0
At true l ts = l ≡ (between, ts)
At false l ts = settled l ≡ (between, ts)

-- A text that is read as these tokens, wherever it stands.
abbrev pub Reads : Bool → Bool → Text → List Token → Type 0
Reads a b t us = (l : Lexer) (ts : List Token) → At a l ts → At b (run l t) (ts ++ us)

pub run-append : (l : Lexer) (s t : Text) → run l (s ++ t) ≡ run (run l s) t
unfolding run
run-append l [] t = refl
run-append l (c ∷ s) t = run-append (step l c) s t

pub append-Reads :
    (a b c : Bool) (s t : Text) (us vs : List Token)
    → Reads a b s us
    → Reads b c t vs
    → Reads a c (s ++ t) (us ++ vs)
append-Reads a b c s t us vs first second l ts h =
    rw (run-append l s t)
      (rw (sym (append_assoc ts us vs)) (second (run l s) (ts ++ us) (first l ts h)))

settled-At : (l : Lexer) (ts : List Token) → At true l ts → At false l ts
settled-At l ts h = rw h refl

-- A text that is read behind a word is read anywhere, and what ends a word may be behind one.
pub from_exact : (b : Bool) (t : Text) (us : List Token) → Reads false b t us → Reads true b t us
from_exact b t us h l ts e = h l ts (settled-At l ts e)

pub to_settled : (a : Bool) (t : Text) (us : List Token) → Reads a true t us → Reads a false t us
to_settled a t us h l ts e = settled-At (run l t) (ts ++ us) (h l ts e)

step-space :
    (l : Lexer) (ts : List Token) (c : ℕ)
    → is_space c ≡ true
    → At false l ts
    → step l c ≡ (between, ts)
unfolding step outside
step-space (between, ts') ts c s h = ground (arith, s, h)
step-space (in_word w, ts') ts c s h = ground (arith, s, h)
step-space (broken, ts') ts c s h = ground (arith, h)
step-space (in_string _, ts') ts c s h = ground (arith, h)
step-space (escaped _, ts') ts c s h = ground (arith, h)
step-space (hex _ _ _, ts') ts c s h = ground (arith, h)

step-symbol :
    (l : Lexer) (ts : List Token) (c : ℕ)
    → is_space c ≡ false
    → is_symbol c ≡ true
    → At false l ts
    → step l c ≡ (between, ts ++ symbol c ∷ [])
unfolding step outside
step-symbol (between, ts') ts c s y h = ground (arith, s, y, h)
step-symbol (in_word w, ts') ts c s y h = ground (arith, s, y, h)
step-symbol (broken, ts') ts c s y h = ground (arith, h)
step-symbol (in_string _, ts') ts c s y h = ground (arith, h)
step-symbol (escaped _, ts') ts c s y h = ground (arith, h)
step-symbol (hex _ _ _, ts') ts c s y h = ground (arith, h)

-- A symbol ends a word.
pub symbol-Reads :
    (c : ℕ) → is_space c ≡ false → is_symbol c ≡ true → Reads false true (c ∷ []) (symbol c ∷ [])
unfolding run
symbol-Reads c s y l ts h = step-symbol l ts c s y h

run-spaces : (n : ℕ) (ts : List Token) → run (between, ts) (spaces n) ≡ (between, ts)
unfolding run step outside
run-spaces zero ts = refl
run-spaces (suc n) ts = run-spaces n ts

line-Reads : (n : ℕ) → Reads false true (10 ∷ spaces n) []
unfolding run
line-Reads n l ts h =
    ap (λ m. run m (spaces n)) (step-space l ts 10 refl h)
    ∙ (run-spaces n ts ∙ ap (λ us. (between, us)) (sym (append-nil ts)))

pub nothing-Reads : (a : Bool) → Reads a a [] []
unfolding run
nothing-Reads true l ts h = rw (append-nil ts) h
nothing-Reads false l ts h = rw (append-nil ts) h

if-Reads : (a b : Bool) (n : ℕ) → Reads a a (if b then 10 ∷ spaces n else []) []
if-Reads true true n l ts h = line-Reads n l ts (settled-At l ts h)
if-Reads false true n l ts h = settled-At (run l (10 ∷ spaces n)) (ts ++ []) (line-Reads n l ts h)
if-Reads a false n l ts h = nothing-Reads a l ts h

pub newline-Reads : (a : Bool) (x : JsonExporter) (level : ℕ) → Reads a a (newline x level) []
unfolding newline
newline-Reads a x level = if-Reads a x.pretty (level * x.indent)

blank-Reads : (b : Bool) → Reads true true (if b then 32 ∷ [] else []) []
unfolding run step outside
blank-Reads true l ts h = rw h (rw (append-nil ts) refl)
blank-Reads false l ts h = nothing-Reads true l ts h

pub space-Reads : (x : JsonExporter) → Reads true true (space x) []
unfolding space
space-Reads x = blank-Reads x.pretty

-- Inside a string.
run-escape_char :
    (c : ℕ) (s : Text) (ts : List Token)
    → run (in_string s, ts) (escape_char c) ≡ (in_string (s ++ c ∷ []), ts)
unfolding run step outside escape_char read_escape read_digit
run-escape_char c s ts = ground arith

run-escape_chars :
    (s a : Text) (ts : List Token)
    → run (in_string a, ts) (escape_chars s) ≡ (in_string (a ++ s), ts)
unfolding run escape_chars
run-escape_chars [] a ts = ap (λ b. (in_string b, ts)) (sym (append-nil a))
run-escape_chars (c ∷ s) a ts =
    run-append (in_string a, ts) (escape_char c) (escape_chars s)
    ∙ (ap (λ l. run l (escape_chars s)) (run-escape_char c a ts)
        ∙ (run-escape_chars s (a ++ c ∷ []) ts
            ∙ ap (λ b. (in_string b, ts)) (append_assoc a (c ∷ []) s)))

-- A string is read back as itself, whatever it holds.
pub string-Reads : (s : Text) → Reads true true (append_string s) (quoted s ∷ [])
unfolding run step outside append_string
string-Reads s l ts h = rw h (
    rw (run-append (in_string [], ts) (escape_chars s) (34 ∷ []))
      (rw (run-escape_chars s [] ts) refl))

-- A text that is one word.
abbrev pub IsWordRest : Text → Type 0
IsWordRest [] = Unit {0}
IsWordRest (c ∷ s) = ((is_space c || is_symbol c || c == 34) ≡ false) × IsWordRest s

abbrev pub IsWord : Text → Type 0
IsWord [] = ⊥
IsWord (c ∷ s) = IsWordRest (c ∷ s)

in_word_step :
    (w : Text) (ts : List Token) (c : ℕ)
    → (is_space c || is_symbol c || c == 34) ≡ false
    → outside (in_word w) ts c ≡ (in_word (w ++ c ∷ []), ts)
unfolding outside
in_word_step w ts c h = ground (arith, h)

between_step :
    (ts : List Token) (c : ℕ)
    → (is_space c || is_symbol c || c == 34) ≡ false
    → outside between ts c ≡ (in_word (c ∷ []), ts)
unfolding outside
between_step ts c h = ground (arith, h)

run-word :
    (s w : Text) (ts : List Token) → IsWordRest s → run (in_word w, ts) s ≡ (in_word (w ++ s), ts)
unfolding run step
run-word [] w ts h = ap (λ b. (in_word b, ts)) (sym (append-nil w))
run-word (c ∷ s) w ts (h, hs) =
    ap (λ l. run l s) (in_word_step w ts c h)
    ∙ (run-word s (w ++ c ∷ []) ts hs ∙ ap (λ b. (in_word b, ts)) (append_assoc w (c ∷ []) s))

pub word-Reads : (s : Text) → IsWord s → Reads true false s (word s ∷ [])
unfolding run step
word-Reads [] h l ts e = elim h [ ]
word-Reads (c ∷ s) (h, hs) l ts e =
    rw e (rw (between_step ts c h) (rw (run-word s (c ∷ []) ts hs) refl))
