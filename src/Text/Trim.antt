-- ===== src/Text/Trim.antt =====
-- Text that trimming leaves alone.
use docker_port_forward.Text.Number.{format_nat, itoa}
use mathlib.Core.List.{cons-ne-nil}
use docker_port_forward.Text.Number.Numerals.{IsDigit, format_nat-All, format_nat-ne-nil}
use docker_port_forward.Text.Base.{
  is_space-ascii, Text, Lacks, is_space, trim_left, trim_right, trim_space, contains_char,
}
use docker_port_forward.Common.{
  ◌≤◌, subst, ℤ, pos, negsuc, suc, ℕ, ◌≡◌, ◌≢◌, refl, false, [], ◌∷◌, ◌++◌, arith, All, is_nil,
}

abbrev pub NonSpace : ℕ → Type 0
NonSpace c = is_space c ≡ false

trim_right-All : (t : Text) → All NonSpace t → trim_right t ≡ t
unfolding trim_right
trim_right-All [] h = refl
trim_right-All (c ∷ t) h = ground (arith, trim_right-All t h.1)

pub is_nil-append : (s t : Text) → t ≢ [] → is_nil (s ++ t) ≡ false
is_nil-append [] [] ne = absurd (ne refl)
is_nil-append [] (c ∷ t) ne = refl
is_nil-append (c ∷ s) t ne = refl

trim_right-append : (s t : Text) → t ≢ [] → trim_right t ≡ t → trim_right (s ++ t) ≡ s ++ t
unfolding trim_right
trim_right-append [] t ne h = h
trim_right-append (c ∷ s) t ne h = ground (arith, trim_right-append s t ne h, is_nil-append s t ne)

-- The text has a first character, which is no white space.
abbrev pub Starts : Text → Type 0
Starts [] = ⊥
Starts (c ∷ s) = NonSpace c

-- A text with no white space at its start, and with a last part that has none.
pub trim_space_fixed :
    (s t : Text) → Starts s → t ≢ [] → All NonSpace t → trim_space (s ++ t) ≡ s ++ t
unfolding trim_space trim_left
trim_space_fixed [] t start ne h = elim start [ ]
trim_space_fixed (c ∷ s) t start ne h =
    rw start (trim_right-append (c ∷ s) t ne (trim_right-All t h))

pub contains_char-Lacks : (b : ℕ) (s : Text) → contains_char b s ≡ false → Lacks b s
unfolding contains_char
contains_char-Lacks b [] h = tt
contains_char-Lacks b (c ∷ s) h = ground (arith, contains_char-Lacks b s)

pub Lacks-contains_char : (b : ℕ) (s : Text) → Lacks b s → contains_char b s ≡ false
unfolding contains_char
Lacks-contains_char b [] h = refl
Lacks-contains_char b (c ∷ s) h = ground (arith, Lacks-contains_char b s h.1)

pub All-Lacks : (P : ℕ → Type 0) (b : ℕ) (s : Text) → ¬ P b → All P s → Lacks b s
All-Lacks P b [] nb h = tt
All-Lacks P b (c ∷ s) nb h = ((λ e. nb (subst P e h.0)), All-Lacks P b s nb h.1)

pub All_mono : (P Q : ℕ → Type 0) (s : Text) → ((c : ℕ) → P c → Q c) → All P s → All Q s
All_mono P Q [] f h = tt
All_mono P Q (c ∷ s) f h = (f c h.0, All_mono P Q s f h.1)

-- a character of a printed integer
abbrev pub IsNumeral : ℕ → Type 0
IsNumeral c = (b'-' ≤ c) × (c ≤ b'9') × (c ≢ b'/')

pub IsNumeral-NonSpace : (c : ℕ) → IsNumeral c → NonSpace c
IsNumeral-NonSpace c h = is_space-ascii c (omega arith) (omega arith)

pub itoa-IsNumeral : (z : ℤ) → All IsNumeral (itoa z)
unfolding itoa
itoa-IsNumeral (pos n) = All_mono IsDigit IsNumeral _ (λ c h. omega arith) (format_nat-All n)
itoa-IsNumeral (negsuc n) =
    (omega arith, All_mono IsDigit IsNumeral _ (λ c h. omega arith) (format_nat-All (suc n)))

pub itoa-ne-nil : (z : ℤ) → itoa z ≢ []
unfolding itoa
itoa-ne-nil (pos n) = format_nat-ne-nil n
itoa-ne-nil (negsuc n) = cons-ne-nil b'-' (format_nat (suc n))

pub Starts-append : (s t : Text) → s ≢ [] → All NonSpace s → Starts (s ++ t)
Starts-append [] t ne h = absurd (ne refl)
Starts-append (c ∷ s) t ne h = h.0
