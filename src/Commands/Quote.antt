-- ===== src/Commands/Quote.antt =====
-- `strconv.Quote`, which prints `%q`.
use docker_port_forward.Common.{
  ℕ, zero, suc, ◌/◌, ◌%◌, ◌==◌, Bool, ◌||◌, ◌&&◌, ltb, [], ◌∷◌, ◌++◌, if◌then◌else◌,
}
use docker_port_forward.Text.{Text, codes}
use docker_port_forward.Launch.{hex_letter}

-- the last `k` hexadecimal digits
unfoldable pub hex_digits : ℕ → ℕ → Text
hex_digits zero n = []
hex_digits (suc k) n = hex_digits k (n / 16) ++ hex_letter (n % 16) ∷ []

abbrev pub letter_escape : ℕ → ℕ
letter_escape c =
    if c == 7
    then b'a'
    else if c == 8
    then b'b'
    else if c == 12
    then b'f'
    else if c == 10
    then b'n'
    else if c == 13
    then b'r'
    else if c == 9
    then b't'
    else b'v'

-- a code point that is no character is printed as U+FFFD
abbrev pub wide_escape : ℕ → Text
wide_escape c =
    if ltb c 55296 || (ltb 57343 c && ltb c 1114112)
    then if ltb c 65536 then codes "\\u" ++ hex_digits 4 c else codes "\\U" ++ hex_digits 8 c
    else codes "\\ufffd"

-- Whether `strconv.IsPrint` holds of a code point above ASCII, which its tables tell.
module _ (is_print : ℕ → Bool) where
  unfoldable pub is_printable : ℕ → Bool
  is_printable c = if ltb c 128 then ltb 31 c && ltb c 127 else is_print c

  unfoldable pub escape : ℕ → Text
  escape c =
      if c == b'"' || c == b'\\'
      then b'\\' ∷ c ∷ []
      else if is_printable c
      then c ∷ []
      else if ltb 6 c && ltb c 14
      then b'\\' ∷ letter_escape c ∷ []
      else if ltb c 32 || c == 127
      then codes "\\x" ++ hex_digits 2 c
      else wide_escape c

  unfoldable pub escape_all : Text → Text
  escape_all [] = []
  escape_all (c ∷ s) = escape c ++ escape_all s

  unfoldable pub quote : Text → Text
  quote s = b'"' ∷ escape_all s ++ b'"' ∷ []
