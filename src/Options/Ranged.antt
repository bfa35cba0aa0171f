-- ===== src/Options/Ranged.antt =====
-- internal/source_range.go: the range that `ParseSourceRange` gives.
use docker_port_forward.Common.{
  ◌≢◌, some, false, ◌≡◌, ◌↔◌, refl, sym, ap, subst, ◌∙◌, ok-injective, true, Option-cases,
  Bool-cases, inl, inr, [], ◌∷◌, ℕ, ok, err, arith,
}
use docker_port_forward.Netip.{
  Addr, invalid, v4, v6, parse_addr, addr_string, Prefix, no_prefix, prefix_of, masked,
  parse_prefix, prefix_string, prefix_valid, parse_prefix-valid, without_zone, bit_len,
}
use docker_port_forward.Text.{Text, contains_char, format_nat}
use docker_port_forward.Text.Prefixed.{nil_append}
use docker_port_forward.Options.Range.{invalid_range, parse_source_range, source_range_label}
use docker_port_forward.Options.Masked.{SameBits, masked_twice, masked-SameBits, masked_same}

label_valid : (p : Prefix) → prefix_valid p ≡ true → source_range_label p ≡ [] → ⊥
unfolding source_range_label prefix_valid prefix_string
label_valid no_prefix v h = cc
label_valid (prefix_of addr bits) v h = nil_append (addr_string addr) b'/' (format_nat bits) (sym h)

masked-valid : (p : Prefix) → prefix_valid p ≡ true → prefix_valid (masked p) ≡ true
unfolding prefix_valid masked
masked-valid no_prefix v = v
masked-valid (prefix_of addr bits) v = refl

-- The range of one address: all its bits count, and it has no zone.
abbrev pub IsSingle : Addr → Prefix → Type 0
IsSingle invalid p = p ≡ prefix_of invalid 0
IsSingle (v4 bytes) p = p ≡ prefix_of (v4 bytes) 32
IsSingle (v6 groups zone) p = p ≡ prefix_of (v6 groups []) 128

-- The range of an address with a number of bits: it agrees in these bits, has no other bit set, and
-- is also the range of every other text with the number and an address that agrees in these bits.
abbrev pub IsMasked : Text → Prefix → Type 0
IsMasked value p =
    (a : Addr) × (b : Addr) × (n : ℕ) × (parse_prefix value ≡ some (prefix_of a n))
    × (p ≡ prefix_of b n)
    × SameBits n a b
    × (masked p ≡ p)
    × ((other : Text) (a' : Addr)
        → contains_char b'/' other ≡ true
        → parse_prefix other ≡ some (prefix_of a' n)
        → SameBits n a a'
        → parse_source_range other ≡ ok p)

abbrev pub IsRange : Text → Prefix → Type 0
IsRange value p =
    ((value ≡ []) ↔ (source_range_label p ≡ []))
    × (contains_char b'/' value ≡ true → IsMasked value p)
    × (value ≢ []
        → contains_char b'/' value ≡ false
        → (a : Addr) × (parse_addr value ≡ some a) × IsSingle a p)

without_zone-IsSingle :
    (a : Addr) → IsSingle a (prefix_of (without_zone a) (bit_len (without_zone a)))
unfolding without_zone bit_len
without_zone-IsSingle invalid = refl
without_zone-IsSingle (v4 bytes) = refl
without_zone-IsSingle (v6 groups zone) = refl

with_slash :
    (value : Text) (q : Prefix)
    → contains_char b'/' value ≡ true
    → parse_prefix value ≡ some q
    → parse_source_range value ≡ ok (masked q)
unfolding parse_source_range contains_char
with_slash [] q slash e = cc
with_slash (c ∷ value) q slash e = rw (parse_source_range, slash, e) refl

parse_prefix-IsMasked :
    (value : Text) (q : Prefix)
    → prefix_valid q ≡ true
    → parse_prefix value ≡ some q
    → IsMasked value (masked q)
unfolding prefix_valid
parse_prefix-IsMasked value no_prefix v e = cc
parse_prefix-IsMasked value (prefix_of a n) v e =
    let (b, kept, same) = masked-SameBits a n in
    (
      a,
      b,
      n,
      e,
      kept,
      same,
      masked_twice (prefix_of a n),
      (λ other a' slash f bits.
          with_slash other (prefix_of a' n) slash f ∙ ap ok (sym (masked_same a a' n bits))),
    )

recorded :
    (c : ℕ) (value : Text) (p : Prefix)
    → prefix_valid p ≡ true
    → (c ∷ value ≡ []) ↔ (source_range_label p ≡ [])
recorded c value p v = ((λ e. cc), (λ e. absurd (label_valid p v e)))

-- A source range is recorded in the label exactly when one is given. One that is given as an address
-- with a number of bits agrees with that address in these bits and has no other bit set, and every
-- other spelling with that number, of an address that agrees in these bits, gives the same range. One
-- that is given as a bare address is the range of that address alone: all 32 bits of an IPv4 address
-- count, or all 128 of an IPv6 address, whose zone is left out.
pub parse_source_range-IsRange :
    (value : Text) (p : Prefix) → parse_source_range value ≡ ok p → IsRange value p
unfolding parse_source_range source_range_label prefix_valid contains_char
parse_source_range-IsRange [] p h =
    subst (IsRange []) (ok-injective h)
      (((λ e. refl), (λ e. refl)), (λ k. cc), (λ some_text. absurd (some_text refl)))
parse_source_range-IsRange (c ∷ value) p h = elim (Bool-cases (contains_char b'/' (c ∷ value))) [
  | inl slash ↦ elim (Option-cases (parse_prefix (c ∷ value))) [
    | inl e ↦
        let opened : parse_source_range (c ∷ value) ≡ err invalid_range =
          rw (parse_source_range, slash, e) refl in
        absurd (ground (arith, opened))
    | inr (q, e) ↦
        let v = parse_prefix-valid (c ∷ value) q e in
        subst (IsRange (c ∷ value)) (ok-injective (sym (with_slash (c ∷ value) q slash e) ∙ h)) (
          recorded c value (masked q) (masked-valid q v),
          (λ k. parse_prefix-IsMasked (c ∷ value) q v e),
          (λ some_text bare. absurd (ground (arith, slash, bare))),
        )
  ]
  | inr bare ↦ elim (Option-cases (parse_addr (c ∷ value))) [
    | inl e ↦
        let opened : parse_source_range (c ∷ value) ≡ err invalid_range =
          rw (parse_source_range, bare, e) refl in
        absurd (ground (arith, opened))
    | inr (a, e) ↦
        let opened : parse_source_range (c ∷ value)
            ≡ ok (prefix_of (without_zone a) (bit_len (without_zone a))) =
          rw (parse_source_range, bare, e) refl in
        subst (IsRange (c ∷ value)) (ok-injective (sym opened ∙ h)) (
          recorded c value (prefix_of (without_zone a) (bit_len (without_zone a))) refl,
          (λ k. absurd (ground (arith, bare, k))),
          (λ some_text k. (a, e, without_zone-IsSingle a)),
        )
  ]
]
