-- ===== src/Netip/Chars.antt =====
-- The characters of an address with no colon: digits and dots.
use mathlib.Core.Option
use docker_port_forward.Common.{
  ℕ, ◌≤◌, ◌≡◌, ◌≢◌, false, some, List, [], ◌∷◌, arith, ◌==◌, All, Bool-cases, inl, inr,
  Option-cases,
}
use docker_port_forward.Text.{Text, IsDigit, contains_char, split, cons_head, parse_uint-All}
use docker_port_forward.Netip.Address.{Addr, v4}
use docker_port_forward.Netip.Parse.{octet, octets, ipv4_fields, parse_by, parse_addr}

abbrev pub IsDotted : ℕ → Type 0
IsDotted c = (b'.' ≤ c) × (c ≤ b'9') × (c ≢ b'/')

octet-All : (s : Text) (n : ℕ) → octet s ≡ some n → All IsDigit s
unfolding octet
octet-All [] n h = tt
octet-All (c ∷ []) n h = parse_uint-All 255 n (c ∷ []) h
octet-All (c ∷ d ∷ s) n h = ground (arith, parse_uint-All 255 n (c ∷ d ∷ s))

octets-All : (ps : List Text) (bs : List ℕ) → octets ps ≡ some bs → All (All IsDigit) ps
unfolding octets
octets-All [] bs h = tt
octets-All (p ∷ ps) bs h = elim (Option-cases (octet p)) [
  | inl e ↦ absurd (ground arith)
  | inr (n, e) ↦ elim (Option-cases (octets ps)) [
    | inl e' ↦ absurd (ground arith)
    | inr (cs, e') ↦ (octet-All p n e, octets-All ps cs e')
  ]
]

cons_head-All :
    (c : ℕ) (ps : List Text) → All (All IsDigit) (cons_head c ps) → IsDigit c × All (All IsDigit) ps
cons_head-All c [] h = (h.0.0, tt)
cons_head-All c (p ∷ ps) h = (h.0.0, (h.0.1, h.1))

split-All : (s : Text) → All (All IsDigit) (split b'.' s) → All IsDotted s
unfolding split
split-All [] h = tt
split-All (c ∷ s) h = elim (Bool-cases (c == b'.')) [
  | inl e ↦ (ground arith, split-All s ((rw e at h).1))
  | inr e ↦
      let (digit, rest) = cons_head-All c (split b'.' s) (rw e at h) in
      (ground arith, split-All s rest)
]

ipv4_fields-All : (s : Text) (bs : List ℕ) → ipv4_fields s ≡ some bs → All IsDotted s
unfolding ipv4_fields
ipv4_fields-All s bs h = split-All s (octets-All (split b'.' s) bs (ground arith))

mapped-All : (s : Text) (a : Addr) → Option.map v4 (ipv4_fields s) ≡ some a → All IsDotted s
mapped-All s a h = elim (Option-cases (ipv4_fields s)) [
  | inl e ↦ absurd (ground arith)
  | inr (bs, e) ↦ ipv4_fields-All s bs e
]

parse_by-All :
    (r s : Text) (a : Addr) → contains_char b':' r ≡ false → parse_by r s ≡ some a → All IsDotted s
unfolding parse_by contains_char
parse_by-All [] s a lacks h = cc
parse_by-All (c ∷ r) s a lacks h = ground (arith, mapped-All s a, parse_by-All r s a)

pub parse_addr-All :
    (s : Text) (a : Addr) → contains_char b':' s ≡ false → parse_addr s ≡ some a → All IsDotted s
unfolding parse_addr
parse_addr-All s a = parse_by-All s s a
