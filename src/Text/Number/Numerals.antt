-- ===== src/Text/Number/Numerals.antt =====
-- `strconv`: printed numbers are read back, and what is read is in range.
use mathlib.Core.List.{cons-ne-nil}
use docker_port_forward.Common.{
  Bool-cases, inl, inr, ℕ, zero, suc, ◌+◌, ◌-◌, ◌*◌, ◌/◌, ◌%◌, ◌≤◌, ◌<◌, ◌≡◌, ◌≢◌, refl, Option,
  none, some, [], ◌∷◌, arith, ltb, ◌==◌, All, ℤ, pos, negsuc, neg,
}
use docker_port_forward.Text.Base.{Text, codes}
use docker_port_forward.Text.Number.{
  digits, format_nat, itoa, scan, parse_uint, signed, parse_int, max_int, atoi,
}

abbrev pub IsDigit : ℕ → Type 0
IsDigit c = (b'0' ≤ c) × (c ≤ b'9')

digits-All : (f n : ℕ) (out : Text) → All IsDigit out → All IsDigit (digits f n out)
unfolding digits
digits-All zero n out h = h
digits-All (suc f) n out h = ground (arith, digits-All f (n / 10) ((b'0' + n % 10) ∷ out))

pub format_nat-All : (n : ℕ) → All IsDigit (format_nat n)
unfolding format_nat
format_nat-All n = digits-All (suc n) n [] tt

scan-digit_lem : (d n : ℕ) (s : Text) → d < 10 → scan 10 ((b'0' + d) ∷ s) n ≡ scan 10 s (n * 10 + d)
unfolding scan
scan-digit_lem d n s h = ground arith

scan-digits : (f n : ℕ) (out : Text) → n < f → scan 10 (digits f n out) 0 ≡ scan 10 out n
unfolding digits
scan-digits zero n out h = elim h [ ]
scan-digits (suc f) n out h = ground (
  arith,
  scan-digit_lem n 0 out,
  scan-digit_lem (n % 10) (n / 10) out,
  scan-digits f (n / 10) ((b'0' + n % 10) ∷ out),
)

digits-ne-nil : (f n : ℕ) (out : Text) → n < f → digits f n out ≢ []
unfolding digits
digits-ne-nil zero n out h = elim h [ ]
digits-ne-nil (suc f) n out h = elim (Bool-cases (ltb n 10)) [
  | inl last ↦ rw (last, digits) (cons-ne-nil _ _)
  | inr more ↦ rw (more, digits) (digits-ne-nil f (n / 10) _ (ground arith))
]

pub format_nat-ne-nil : (n : ℕ) → format_nat n ≢ []
unfolding format_nat
format_nat-ne-nil n = digits-ne-nil (suc n) n [] (omega arith)

scan-format_nat : (n : ℕ) → scan 10 (format_nat n) 0 ≡ some n
unfolding format_nat scan
scan-format_nat n = scan-digits (suc n) n [] (omega arith)

parse_uint-digits :
    (m n : ℕ) (s : Text) → s ≢ [] → scan 10 s 0 ≡ some n → n ≤ m → parse_uint m 10 s ≡ some n
unfolding parse_uint
parse_uint-digits m n [] h e le = absurd (h refl)
parse_uint-digits m n (c ∷ s) h e le = rw e (ground arith)

parse_int-digits :
    (m : ℕ) (s : Text) → All IsDigit s → parse_int m 10 s ≡ signed pos (parse_uint m 10 s)
unfolding parse_int
parse_int-digits m [] h = refl
parse_int-digits m (c ∷ s) h = ground arith

-- A number within the range is read back from its decimal print.
pub atoi-itoa_pos : (n : ℕ) → n ≤ max_int → atoi (itoa (pos n)) ≡ some (pos n)
unfolding atoi itoa
atoi-itoa_pos n h =
    rw (parse_int-digits max_int _ (format_nat-All n))
      (rw (parse_uint-digits max_int n _ (format_nat-ne-nil n) (scan-format_nat n) h) refl)

pub atoi-itoa_negsuc : (n : ℕ) → n ≤ max_int → atoi (itoa (negsuc n)) ≡ some (negsuc n)
unfolding atoi itoa parse_int
atoi-itoa_negsuc n h =
    rw
      (parse_uint-digits (suc max_int) (suc n) _ (format_nat-ne-nil (suc n))
        (scan-format_nat (suc n)) (omega arith))
      refl

-- What fits into the 64 bits of an `int`.
abbrev pub InRange : ℤ → Type 0
InRange (pos n) = n ≤ max_int
InRange (negsuc n) = n ≤ max_int

pub atoi-itoa : (z : ℤ) → InRange z → atoi (itoa z) ≡ some z
atoi-itoa (pos n) h = atoi-itoa_pos n h
atoi-itoa (negsuc n) h = atoi-itoa_negsuc n h

pub parse_uint-le : (m base : ℕ) (s : Text) (n : ℕ) → parse_uint m base s ≡ some n → n ≤ m
unfolding parse_uint
parse_uint-le m base [] n h = cc
parse_uint-le m base (c ∷ s) n h = ground arith

neg-InRange : (n : ℕ) (z : ℤ) → n ≤ suc max_int → neg n ≡ z → InRange z
neg-InRange zero (pos k) le h = ground arith
neg-InRange (suc n) (negsuc k) le h = ground arith
neg-InRange zero (negsuc k) le h = cc
neg-InRange (suc n) (pos k) le h = cc

signed-InRange-neg :
    (o : Option ℕ) (z : ℤ)
    → ((n : ℕ) → o ≡ some n → n ≤ suc max_int)
    → signed neg o ≡ some z
    → InRange z
unfolding signed
signed-InRange-neg none z le h = cc
signed-InRange-neg (some n) z le h = neg-InRange n z (le n refl) (cc)

signed-InRange_pos :
    (o : Option ℕ) (z : ℤ)
    → ((n : ℕ) → o ≡ some n → n ≤ max_int)
    → signed pos o ≡ some z
    → InRange z
unfolding signed
signed-InRange_pos none z le h = cc
signed-InRange_pos (some n) (pos k) le h = ground (arith, le n refl)
signed-InRange_pos (some n) (negsuc k) le h = cc

-- Whatever `Atoi` accepts fits.
pub atoi-InRange : (s : Text) (z : ℤ) → atoi s ≡ some z → InRange z
unfolding atoi parse_int
atoi-InRange [] z h = cc
atoi-InRange (c ∷ s) z h = elim (Bool-cases (c == b'-')) [
  | inl e ↦ signed-InRange-neg _ z (parse_uint-le (suc max_int) 10 s) (rw e at h)
  | inr e ↦ elim (Bool-cases (c == b'+')) [
    | inl p ↦ signed-InRange_pos _ z (parse_uint-le max_int 10 s) (rw (e, p) at h)
    | inr p ↦ signed-InRange_pos _ z (parse_uint-le max_int 10 (c ∷ s)) (rw (e, p) at h)
  ]
]

neg-pos : (k n : ℕ) → neg k ≡ pos n → n ≤ 0
neg-pos zero n h = ground arith
neg-pos (suc k) n h = cc

signed-neg-pos : (o : Option ℕ) (n : ℕ) → signed neg o ≡ some (pos n) → n ≤ 0
unfolding signed
signed-neg-pos none n h = cc
signed-neg-pos (some k) n h = neg-pos k n (cc)

signed_pos-le :
    (o : Option ℕ) (m n : ℕ) → ((k : ℕ) → o ≡ some k → k ≤ m) → signed pos o ≡ some (pos n) → n ≤ m
unfolding signed
signed_pos-le none m n le h = cc
signed_pos-le (some k) m n le h = ground (arith, le k refl)

-- A natural number that `ParseInt` returns is in the range of the type.
pub parse_int-le : (m base : ℕ) (s : Text) (n : ℕ) → parse_int m base s ≡ some (pos n) → n ≤ m
unfolding parse_int
parse_int-le m base [] n h = cc
parse_int-le m base (c ∷ s) n h = elim (Bool-cases (c == b'-')) [
  | inl e ↦ omega (arith, signed-neg-pos _ n (rw e at h))
  | inr e ↦ elim (Bool-cases (c == b'+')) [
    | inl p ↦ signed_pos-le _ m n (parse_uint-le m base s) (rw (e, p) at h)
    | inr p ↦ signed_pos-le _ m n (parse_uint-le m base (c ∷ s)) (rw (e, p) at h)
  ]
]

read_signs : (atoi (codes "+8080") ≡ some (pos 8080)) × (atoi (codes "-1") ≡ some (negsuc 0))
unfolding atoi
read_signs = (refl, refl)

refused : (atoi (codes "") ≡ none) × (atoi (codes "8 0") ≡ none) × (atoi (codes "-") ≡ none)
unfolding atoi
refused = (refl, refl, refl)

too_large : atoi (codes "9223372036854775808") ≡ none
unfolding atoi
too_large = refl

smallest : atoi (codes "-9223372036854775808") ≡ some (negsuc max_int)
unfolding atoi
smallest = refl

scan-All : (s : Text) (n r : ℕ) → scan 10 s n ≡ some r → All IsDigit s
unfolding scan
scan-All [] n r h = tt
scan-All (c ∷ s) n r h = ground (arith, scan-All s (n * 10 + (c - b'0')) r)

-- What is read as a decimal number consists of digits.
pub parse_uint-All : (m n : ℕ) (s : Text) → parse_uint m 10 s ≡ some n → All IsDigit s
unfolding parse_uint
parse_uint-All m n [] h = tt
parse_uint-All m n (c ∷ s) h = scan-All (c ∷ s) 0 n (ground arith)
