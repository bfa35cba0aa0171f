-- ===== src/Ports/Bounds.antt =====
-- internal/ports.go: what an accepted port spec and an accepted list of addresses are.
use mathlib.Core.List.{cons-ne-nil}
use docker_port_forward.Ports.Defs.{validate_each, validate_addresses, all_interfaces}
use docker_port_forward.Ports.Parse.{parse_each, parse_port_specs}
use docker_port_forward.Common.{ltb, length, ◌↔◌, ok-injective}
use docker_port_forward.Common.{subst}
use docker_port_forward.Common.{
  ◌≡◌, ◌≢◌, refl, ap, Bool, true, false, ◌⊎◌, inl, inr, some, List, [], ◌∷◌, arith, All, length, ℤ,
  pos, negsuc, ok, is_nil, ltb, >>=-eq-ok, ok-injective, subst, ap, Option-cases,
}
use docker_port_forward.Text.{Text, text_eq, cut_last, trim_space}
use docker_port_forward.Ports.Defs.{
  Protocol, tcp, udp, unset, other, PortPair, is_valid_address, validate_address, validate_each,
  validate_addresses, all_interfaces,
}
use docker_port_forward.Ports.Parse.{
  parse_port_number, split_protocol, split_parts, Parts, check_address, remote_of, local_of,
  pair_of, parse_trimmed, parse_port_spec, parse_each, parse_port_specs, known_protocol,
}
use docker_port_forward.Ports.RoundTrip.{IsKnown, InPorts}

-- What every parsed pair satisfies.
pub record IsSound (p : PortPair) : Type 0 where
  pub known : IsKnown p.protocol
  pub local_fits : InPorts 0 p.local_port
  pub remote_fits : InPorts 1 p.remote_port
  pub valid : (is_nil p.address ≡ true) ⊎ (is_valid_address p.address ≡ true)

parse_port_number-InPorts : (s : Text) (z : ℤ) → parse_port_number s ≡ some z → InPorts 0 z
unfolding parse_port_number
parse_port_number-InPorts s (pos n) h = ground arith
parse_port_number-InPorts s (negsuc n) h = ground arith

remote_of-InPorts : (s : Text) (z : ℤ) → remote_of s ≡ ok z → InPorts 1 z
unfolding remote_of
remote_of-InPorts s (pos n) h = ground (arith, parse_port_number-InPorts s (pos n))
remote_of-InPorts s (negsuc n) h = ground (arith, parse_port_number-InPorts s (negsuc n))

local_of-InPorts : (s : Text) (z : ℤ) → local_of s ≡ ok z → InPorts 0 z
unfolding local_of
local_of-InPorts s (pos n) h = ground (arith, parse_port_number-InPorts s (pos n))
local_of-InPorts s (negsuc n) h = ground (arith, parse_port_number-InPorts s (negsuc n))

check_address-valid :
    (a : Text) (u : Unit {0})
    → check_address a ≡ ok u
    → (is_nil a ≡ true) ⊎ (is_valid_address a ≡ true)
unfolding check_address validate_address
check_address-valid a u h = ground arith

pair_of-IsSound :
    (proto : Protocol) (parts : Parts) (p : PortPair)
    → IsKnown proto
    → pair_of proto parts ≡ ok p
    → IsSound p
unfolding pair_of
pair_of-IsSound proto (a, l, r) p known h =
    let (u, hu, h1) = >>=-eq-ok (check_address a) _ h in
    let (rz, hr, h2) = >>=-eq-ok (remote_of r) _ h1 in
    let (lz, hl, h3) = >>=-eq-ok (local_of l) _ h2 in
    subst IsSound (ok-injective h3) (record {
      known = known;
      local_fits = local_of-InPorts l lz hl;
      remote_fits = remote_of-InPorts r rz hr;
      valid = check_address-valid a u hu;
    })

known_protocol-IsKnown :
    (named proto : Protocol) (name ports t : Text)
    → known_protocol named name ports ≡ ok (proto, t)
    → IsKnown proto
known_protocol-IsKnown tcp tcp name ports t h = tt
known_protocol-IsKnown tcp udp name ports t h = tt
known_protocol-IsKnown tcp unset name ports t h = ground arith
known_protocol-IsKnown tcp (other o) name ports t h = ground arith
known_protocol-IsKnown udp tcp name ports t h = tt
known_protocol-IsKnown udp udp name ports t h = tt
known_protocol-IsKnown udp unset name ports t h = ground arith
known_protocol-IsKnown udp (other o) name ports t h = ground arith
known_protocol-IsKnown unset proto name ports t h = cc
known_protocol-IsKnown (other o) proto name ports t h = cc

split_protocol-IsKnown :
    (s : Text) (proto : Protocol) (t : Text) → split_protocol s ≡ ok (proto, t) → IsKnown proto
unfolding split_protocol
split_protocol-IsKnown s proto t h = elim (Option-cases (cut_last b'/' s)) [
  | inl e ↦ subst IsKnown (ap (λ r. r.0) (ok-injective (rw (e, split_protocol) at h))) tt
  | inr ((before, after), e) ↦ known_protocol-IsKnown _ proto _ _ t (rw (e, split_protocol) at h)
]

parse_trimmed-IsSound : (s : Text) (p : PortPair) → parse_trimmed s ≡ ok p → IsSound p
unfolding parse_trimmed
parse_trimmed-IsSound [] p h = cc
parse_trimmed-IsSound (c ∷ s) p h =
    let ((proto, ports), h1, h2) = >>=-eq-ok (split_protocol (c ∷ s)) _ h in
    let (parts, h3, h4) = >>=-eq-ok (split_parts ports) _ h2 in
    pair_of-IsSound proto parts p (split_protocol-IsKnown (c ∷ s) proto ports h1) h4

-- An accepted spec gives a pair whose ports are in range, with a remote port that is not zero, whose
-- protocol is TCP or UDP, and whose address is empty or valid.
pub parse_port_spec-IsSound : (s : Text) (p : PortPair) → parse_port_spec s ≡ ok p → IsSound p
unfolding parse_port_spec
parse_port_spec-IsSound s p h = parse_trimmed-IsSound (trim_space s) p h

-- The pairs are those of the specs, one for each, in order.
abbrev pub Parsed : List Text → List PortPair → Type 0
Parsed [] [] = Unit
Parsed (s ∷ specs) (p ∷ pairs) = (parse_port_spec s ≡ ok p) × Parsed specs pairs
Parsed _ _ = ⊥

parse_each-Parsed :
    (specs : List Text) (pairs : List PortPair) → parse_each specs ≡ ok pairs → Parsed specs pairs
unfolding parse_each
parse_each-Parsed [] [] h = tt
parse_each-Parsed [] (p ∷ pairs) h = cc
parse_each-Parsed (s ∷ specs) pairs h =
    let (p, h1, h2) = >>=-eq-ok (parse_port_spec s) _ h in
    let (ps, h3, h4) = >>=-eq-ok (parse_each specs) _ h2 in
    subst (Parsed (s ∷ specs)) (ok-injective h4) (h1, parse_each-Parsed specs ps h3)

Parsed-parse_each :
    (specs : List Text) (pairs : List PortPair) → Parsed specs pairs → parse_each specs ≡ ok pairs
unfolding parse_each
Parsed-parse_each [] [] h = refl
Parsed-parse_each (s ∷ specs) (p ∷ pairs) h = rw (h.0, Parsed-parse_each specs pairs h.1) refl
Parsed-parse_each [] (p ∷ pairs) h = elim h [ ]
Parsed-parse_each (s ∷ specs) [] h = elim h [ ]

Parsed-IsSound :
    (specs : List Text) (pairs : List PortPair) → Parsed specs pairs → All IsSound pairs
Parsed-IsSound [] [] h = tt
Parsed-IsSound (s ∷ specs) (p ∷ pairs) h =
    (parse_port_spec-IsSound s p h.0, Parsed-IsSound specs pairs h.1)
Parsed-IsSound [] (p ∷ pairs) h = elim h [ ]
Parsed-IsSound (s ∷ specs) [] h = elim h [ ]

-- A list of specs is accepted with the pairs that its specs give, one for each and in order, exactly
-- when it has a spec and each of them is accepted; every pair is then sound.
pub parse_port_specs-iff_Parsed :
    (specs : List Text) (pairs : List PortPair)
    → ((parse_port_specs specs ≡ ok pairs) ↔ ((specs ≢ []) × Parsed specs pairs))
      × (Parsed specs pairs → All IsSound pairs)
unfolding parse_port_specs
parse_port_specs-iff_Parsed [] pairs = ((λ h. cc, λ h. absurd (h.0 refl)), Parsed-IsSound [] pairs)
parse_port_specs-iff_Parsed (s ∷ specs) pairs = (
  (
    λ h. (cons-ne-nil s specs, parse_each-Parsed (s ∷ specs) pairs h),
    λ h. Parsed-parse_each (s ∷ specs) pairs h.1,
  ),
  Parsed-IsSound (s ∷ specs) pairs,
)

-- What `validate_each` asks of each address.
abbrev IsBindable : Bool → Text → Type 0
IsBindable many a =
    (is_valid_address a ≡ true) × ((many ≡ false) ⊎ (text_eq a all_interfaces ≡ false))

validate_each-All :
    (many : Bool) (addrs : List Text)
    → validate_each many addrs ≡ ok tt
    → All (IsBindable many) addrs
unfolding validate_each
validate_each-All many [] h = tt
validate_each-All many (a ∷ addrs) h = ground (arith, validate_each-All many addrs)

All-validate_each :
    (many : Bool) (addrs : List Text)
    → All (IsBindable many) addrs
    → validate_each many addrs ≡ ok tt
unfolding validate_each
All-validate_each many [] h = refl
All-validate_each many (a ∷ addrs) h = ground (arith, All-validate_each many addrs h.1)

-- A list of default addresses is accepted exactly when each is valid and, if there is more than one,
-- none is the address of all interfaces.
pub validate_addresses_iff :
    (addrs : List Text)
    → (validate_addresses addrs ≡ ok tt)
      ↔ All
          (λ a.
            (is_valid_address a ≡ true)
            × ((ltb 1 (length addrs) ≡ false) ⊎ (text_eq a all_interfaces ≡ false)))
          addrs
unfolding validate_addresses
validate_addresses_iff addrs = (validate_each-All _ addrs, All-validate_each _ addrs)
