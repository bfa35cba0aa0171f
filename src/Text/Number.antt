-- ===== src/Text/Number.antt =====
-- Decimal and hexadecimal numbers: `strconv.Itoa`, `Atoi`, `ParseInt` and `ParseUint`.
pub mod Numerals
use mathlib.Core.List.{cons-ne-nil}
use docker_port_forward.Common.{
  Bool-cases, inl, inr, ℕ, zero, suc, ◌+◌, ◌-◌, ◌*◌, ◌/◌, ◌%◌, ◌^◌, ◌≤◌, ◌<◌, ◌≡◌, ◌≢◌, refl, true,
  false, Option, none, some, [], ◌∷◌, arith, ltb, leb, ◌==◌, if◌then◌else◌, between, All, ℤ, pos,
  negsuc, neg,
}
use docker_port_forward.Text.Base.{Text, codes}

-- One digit a round, from the right. The fuel is above the number, so it lasts.
digits : ℕ → ℕ → Text → Text
digits zero n out = out
digits (suc f) n out = elim (ltb n 10) [
  | true ↦ (b'0' + n) ∷ out
  | false ↦ digits f (n / 10) ((b'0' + n % 10) ∷ out)
]

unfoldable pub format_nat : ℕ → Text
unfolding digits
format_nat n = digits (suc n) n []

-- `strconv.Itoa`, and `%d`
unfoldable pub itoa : ℤ → Text
unfolding format_nat
itoa (pos n) = format_nat n
itoa (negsuc n) = b'-' ∷ format_nat (suc n)

digit_value : ℕ → Option ℕ
digit_value c =
    if between b'0' b'9' c
    then some (c - b'0')
    else if between b'a' b'z' c
    then some (c - b'a' + 10)
    else if between b'A' b'Z' c
    then some (c - b'A' + 10)
    else none

scan_digit : ℕ → Option ℕ → Option ℕ
scan_digit base none = none
scan_digit base (some d) = if ltb d base then some d else none

-- the number that the digits spell behind `n`; none if one is not a digit of the base
scan : ℕ → Text → ℕ → Option ℕ
unfolding digit_value scan_digit
scan base [] n = some n
scan base (c ∷ s) n = elim (scan_digit base (digit_value c)) [
  | none ↦ none
  | some d ↦ scan base s (n * base + d)
]

at_most : ℕ → Option ℕ → Option ℕ
at_most m none = none
at_most m (some n) = if leb n m then some n else none

-- `strconv.ParseUint` for a type whose largest value is `m`
unfoldable pub parse_uint : ℕ → ℕ → Text → Option ℕ
unfolding scan at_most
parse_uint m base [] = none
parse_uint m base (c ∷ s) = at_most m (scan base (c ∷ s) 0)

signed : (ℕ → ℤ) → Option ℕ → Option ℤ
signed f none = none
signed f (some n) = some (f n)

-- `strconv.ParseInt` for a type from `-(m + 1)` to `m`
unfoldable pub parse_int : ℕ → ℕ → Text → Option ℤ
unfolding parse_uint signed
parse_int m base [] = none
parse_int m base (c ∷ s) =
    if c == b'-'
    then signed neg (parse_uint (suc m) base s)
    else if c == b'+'
    then signed pos (parse_uint m base s)
    else signed pos (parse_uint m base (c ∷ s))

abbrev pub max_int : ℕ
max_int = 2 ^ 63 - 1

-- `strconv.Atoi`
unfoldable pub atoi : Text → Option ℤ
unfolding parse_int
atoi s = parse_int max_int 10 s
