-- ===== src/Netip/Cidr.antt =====
-- `netip.Prefix`.
use mathlib.Core.Option
use docker_port_forward.Common.{
  ◌≡◌, refl, sym, subst, ◌∙◌, some-injective, Bool-cases, Option-cases, inl, inr, arith, ℕ, ◌-◌,
  ◌*◌, ◌/◌, ◌^◌, Bool, true, false, not, ◌&&◌, Option, none, some, List, [], ◌∷◌, ◌++◌, leb,
  if◌then◌else◌, between, is_nil, pos, negsuc,
}
use docker_port_forward.Text.{Text, codes, atoi, cut_last, format_nat}
use docker_port_forward.Netip.Address.{Addr, invalid, v4, v6, bit_len}
use docker_port_forward.Netip.Parse.{parse_addr}
use docker_port_forward.Netip.Format.{addr_string}

-- The zero value, and an address with the number of bits that count.
pub data Prefix : Type 0 where
  no_prefix : Prefix
  prefix_of : Addr → ℕ → Prefix

-- `Prefix.IsValid`
unfoldable pub prefix_valid : Prefix → Bool
prefix_valid no_prefix = false
prefix_valid (prefix_of addr bits) = true

-- Words of `w` bits of which only the first `bits` bits are kept.
unfoldable pub mask : ℕ → ℕ → List ℕ → List ℕ
mask w bits [] = []
mask w bits (x ∷ xs) =
    (if leb w bits then x else x / 2 ^ (w - bits) * 2 ^ (w - bits)) ∷ mask w (bits - w) xs

masked_addr : ℕ → Addr → Addr
unfolding mask
masked_addr bits invalid = invalid
masked_addr bits (v4 bytes) = v4 (mask 8 bits bytes)
masked_addr bits (v6 groups zone) = v6 (mask 16 bits groups) zone

-- `Prefix.Masked`
unfoldable pub masked : Prefix → Prefix
unfolding masked_addr
masked no_prefix = no_prefix
masked (prefix_of addr bits) = prefix_of (masked_addr bits addr) bits

has_zone : Addr → Bool
has_zone invalid = false
has_zone (v4 _) = false
has_zone (v6 _ zone) = not (is_nil zone)

-- `strconv.Atoi` takes a sign and leading zeros, which a prefix may not have.
plain_number : Text → Bool
plain_number (c ∷ d ∷ s) = between b'1' b'9' c
plain_number s = true

bits_of : ℕ → Text → Option ℕ
unfolding plain_number atoi
bits_of m s = elim (atoi s) [
  | none ↦ none
  | some (pos n) ↦ (if plain_number s && leb n m then some n else none)
  | some (negsuc n) ↦ none
]

prefix_at : Addr → Text → Option Prefix
unfolding has_zone bits_of bit_len
prefix_at addr s =
    if has_zone addr then none else Option.map (prefix_of addr) (bits_of (bit_len addr) s)

-- `netip.ParsePrefix`
unfoldable pub parse_prefix : Text → Option Prefix
unfolding prefix_at parse_addr cut_last
parse_prefix s = elim (cut_last b'/' s) [
  | none ↦ none
  | some (a, b) ↦ elim (parse_addr a) [ none ↦ none | some addr ↦ prefix_at addr b ]
]

-- `Prefix.String`
unfoldable pub prefix_string : Prefix → Text
unfolding addr_string format_nat
prefix_string no_prefix = codes "invalid Prefix"
prefix_string (prefix_of addr bits) = addr_string addr ++ (b'/' ∷ format_nat bits)

prefix_at-valid :
    (addr : Addr) (s : Text) (q : Prefix) → prefix_at addr s ≡ some q → prefix_valid q ≡ true
unfolding prefix_at prefix_valid
prefix_at-valid addr s q h = elim (Bool-cases (has_zone addr)) [
  | inl zone ↦ absurd (ground arith)
  | inr plain ↦ elim (Option-cases (bits_of (bit_len addr) s)) [
    | inl e ↦
        let opened : prefix_at addr s ≡ none = rw (prefix_at, plain, e) refl in
        absurd (ground (arith, opened))
    | inr (n, e) ↦
        let opened : prefix_at addr s ≡ some (prefix_of addr n) = rw (prefix_at, plain, e) refl in
        subst (λ r. prefix_valid r ≡ true) (some-injective (sym opened ∙ h)) refl
  ]
]

pub parse_prefix-valid : (s : Text) (q : Prefix) → parse_prefix s ≡ some q → prefix_valid q ≡ true
unfolding parse_prefix
parse_prefix-valid s q h = elim (Option-cases (cut_last b'/' s)) [
  | inl e ↦
      let opened : parse_prefix s ≡ none = rw (parse_prefix, e) refl in
      absurd (ground (arith, opened))
  | inr ((a, b), e) ↦ elim (Option-cases (parse_addr a)) [
    | inl f ↦
        let opened : parse_prefix s ≡ none = rw (parse_prefix, e, f) refl in
        absurd (ground (arith, opened))
    | inr (addr, f) ↦
        let opened : parse_prefix s ≡ prefix_at addr b = rw (parse_prefix, e, f) refl in
        prefix_at-valid addr b q (sym opened ∙ h)
  ]
]
