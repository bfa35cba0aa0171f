-- ===== src/Ports/Address.antt =====
-- internal/ports.go: what a valid bind address looks like.
use docker_port_forward.Common.{
  Option-cases, ℕ, ◌≤◌, ◌<◌, ◌≡◌, ◌≢◌, true, false, [], ◌∷◌, arith, All, Bool-cases, inl, inr,
}
use docker_port_forward.Text.{Text, text_eq, text_eq_sound, contains_char}
use docker_port_forward.Netip.{parse_addr}
use docker_port_forward.Netip.Chars.{parse_addr-All, IsDotted}
use docker_port_forward.Ports.Defs.{is_valid_address, localhost, all_interfaces}

-- a printable ASCII character that has no meaning in a port spec
abbrev pub IsPlain : ℕ → Type 0
IsPlain c = (33 ≤ c) × (c < 128) × (c ≢ b'/') × (c ≢ b'[') × (c ≢ b':') × (c ≢ b',')

localhost-All : All IsPlain localhost
localhost-All = ground arith

all_interfaces-All : All IsPlain all_interfaces
all_interfaces-All = ground arith

dotted-IsPlain : (s : Text) → All IsDotted s → All IsPlain s
dotted-IsPlain [] h = tt
dotted-IsPlain (c ∷ s) h = (ground arith, dotted-IsPlain s h.1)

-- A valid address with no colon has only plain characters.
pub address-IsPlain :
    (a : Text) → is_valid_address a ≡ true → contains_char b':' a ≡ false → All IsPlain a
unfolding is_valid_address
address-IsPlain a valid lacks = elim (Bool-cases (text_eq a localhost)) [
  | inl e ↦ rw (text_eq_sound a localhost e) localhost-All
  | inr ne ↦ elim (Bool-cases (text_eq a all_interfaces)) [
    | inl e ↦ rw (text_eq_sound a all_interfaces e) all_interfaces-All
    | inr ne' ↦ elim (Option-cases (parse_addr a)) [
      | inl e ↦ absurd (ground arith)
      | inr (addr, e) ↦ dotted-IsPlain a (parse_addr-All a addr lacks e)
    ]
  ]
]
