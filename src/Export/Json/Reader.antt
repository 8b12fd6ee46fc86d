-- ===== src/Export/Json/Reader.antt =====
-- How a reader of RFC 8259 splits a text into tokens, character by character: independent of how the
-- exporter writes it.
use orm_glib.Base.{
  ℕ, suc, ◌+◌, ◌-◌, ◌*◌, Bool, ◌||◌, ◌&&◌, Option, none, some, List, [], ◌∷◌, ◌++◌, Text,
  if◌then◌else◌, ◌==◌, ltb,
}

-- A bracket, a comma or a colon; a number, `true`, `false` or `null`; and a string.
pub data Token : Type 0 where
  symbol : ℕ → Token
  word : Text → Token
  quoted : Text → Token

-- `hex n v s` has read n digits, whose value is v, of an escape in a string that began with s.
pub data Mode : Type 0 where
  between broken : Mode
  in_word in_string escaped : Text → Mode
  hex : ℕ → ℕ → Text → Mode

abbrev pub Lexer : Type 0
Lexer = Mode × List Token

abbrev pub is_symbol : ℕ → Bool
is_symbol c = c == 91 || c == 93 || c == 123 || c == 125 || c == 44 || c == 58

abbrev pub is_space : ℕ → Bool
is_space c = c == 32 || c == 10 || c == 13 || c == 9

-- A word ends where something else begins.
abbrev pub flush_word : Mode → List Token → List Token
flush_word (in_word w) ts = ts ++ word w ∷ []
flush_word _ ts = ts

abbrev pub extend : Mode → ℕ → Mode
extend (in_word w) c = in_word (w ++ c ∷ [])
extend _ c = in_word (c ∷ [])

unfoldable pub outside : Mode → List Token → ℕ → Lexer
outside m ts c =
    if is_space c
    then (between, flush_word m ts)
    else if is_symbol c
    then (between, flush_word m ts ++ symbol c ∷ [])
    else if c == 34
    then (in_string [], flush_word m ts)
    else (extend m c, ts)

-- The character behind a backslash.
unfoldable pub read_escape : Text → ℕ → Mode
read_escape s c =
    if c == 34 || c == 92 || c == 47
    then in_string (s ++ c ∷ [])
    else if c == 98
    then in_string (s ++ 8 ∷ [])
    else if c == 102
    then in_string (s ++ 12 ∷ [])
    else if c == 110
    then in_string (s ++ 10 ∷ [])
    else if c == 114
    then in_string (s ++ 13 ∷ [])
    else if c == 116
    then in_string (s ++ 9 ∷ [])
    else if c == 117
    then hex 0 0 s
    else broken

abbrev pub is_hex : ℕ → Bool
is_hex c = ltb 47 c && ltb c 58 || ltb 96 c && ltb c 103 || ltb 64 c && ltb c 71

abbrev pub hex_value : ℕ → ℕ
hex_value c = if ltb c 58 then c - 48 else if ltb 96 c then c - 87 else c - 55

-- Four digits; a code point that takes more than one byte is refused.
unfoldable pub read_digit : ℕ → ℕ → Text → ℕ → Mode
read_digit n v s c =
    let w = 16 * v + hex_value c in
    if is_hex c
    then (if n == 3
        then (if ltb w 128 then in_string (s ++ w ∷ []) else broken)
        else hex (suc n) w s)
    else broken

unfoldable pub step : Lexer → ℕ → Lexer
unfolding outside read_escape read_digit
step (between, ts) c = outside between ts c
step (in_word w, ts) c = outside (in_word w) ts c
step (broken, ts) c = (broken, ts)
step (in_string s, ts) c =
    if c == 34
    then (between, ts ++ quoted s ∷ [])
    else if c == 92
    then (escaped s, ts)
    else if ltb c 32
    then (broken, ts)
    else (in_string (s ++ c ∷ []), ts)
step (escaped s, ts) c = (read_escape s c, ts)
step (hex n v s, ts) c = (read_digit n v s c, ts)

unfoldable pub run : Lexer → Text → Lexer
unfolding step
run l [] = l
run l (c ∷ s) = run (step l c) s

abbrev pub final_tokens : Lexer → Option (List Token)
final_tokens (between, ts) = some ts
final_tokens (in_word w, ts) = some (ts ++ word w ∷ [])
final_tokens _ = none

-- The tokens of a text.
unfoldable pub tokens : Text → Option (List Token)
unfolding run
tokens s = final_tokens (run (between, []) s)
