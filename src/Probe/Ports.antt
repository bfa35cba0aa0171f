-- ===== src/Probe/Ports.antt =====
-- internal/probe.go: the ports and protocols of the detected listeners.
use docker_port_forward.Common.{
  some-injective, ℕ, subst, ◌≢◌, ℤ, pos, negsuc, ◌≤◌, ◌<◌, All, ◌==◌, ◌≡◌, refl, Option, none, some,
  List, [], ◌∷◌, arith, Bool-cases, Option-cases, inl, inr, is_nil,
}
use docker_port_forward.Ports.RoundTrip.{IsKnown}
use docker_port_forward.Probe.HexAddr.{parse_hex_addr}
use docker_port_forward.Probe.Listeners.{
  listener_of, max_int32, not_loopback, read_fields, read_address, Listener, mem_listener,
  add_listener, scan_lines, section_of, read_entry,
}
use docker_port_forward.Text.{parse_int-le, cut_last, fields, Text, trim_space}
use docker_port_forward.Ports.{Protocol, unset, tcp, udp, other}

-- A port above zero, as far as 32 signed bits go.
abbrev pub IsPort : ℤ → Type 0
IsPort (pos n) = (0 < n) × (n ≤ max_int32)
IsPort (negsuc n) = ⊥

abbrev pub IsListener : Listener → Type 0
IsListener l = IsKnown l.protocol × IsPort l.port

-- What `current` can be: a protocol of the table, or none yet.
abbrev IsSection : Protocol → Type 0
IsSection (other _) = ⊥
IsSection _ = Unit

IsKnown-of_section : (p : Protocol) → p ≢ unset → IsSection p → IsKnown p
IsKnown-of_section unset ne h = absurd (ne refl)
IsKnown-of_section tcp ne h = tt
IsKnown-of_section udp ne h = tt
IsKnown-of_section (other o) ne h = elim h [ ]

section_of-IsKnown : (line : Text) (p : Protocol) → section_of line ≡ some p → IsKnown p
unfolding section_of
section_of-IsKnown line tcp h = tt
section_of-IsKnown line udp h = tt
section_of-IsKnown line unset h = absurd (ground arith)
section_of-IsKnown line (other o) h = absurd (ground arith)

IsSection-of_known : (p : Protocol) → IsKnown p → IsSection p
IsSection-of_known tcp h = tt
IsSection-of_known udp h = tt
IsSection-of_known unset h = tt
IsSection-of_known (other o) h = h

listener_of-IsListener :
    (current : Protocol) (port : Option ℤ) (l : Listener)
    → IsKnown current
    → ((n : ℕ) → port ≡ some (pos n) → n ≤ max_int32)
    → listener_of current port ≡ some l
    → IsListener l
listener_of-IsListener current none l k le h = cc
listener_of-IsListener current (some (negsuc n)) l k le h = cc
listener_of-IsListener current (some (pos n)) l k le h = elim (Bool-cases (n == 0)) [
  | inl e ↦ absurd (ground arith)
  | inr e ↦ subst IsListener (some-injective (rw e at h)) (k, (ground arith, le n refl))
]

read_address-IsListener :
    (current : Protocol) (s : Text) (l : Listener)
    → IsKnown current
    → read_address current s ≡ some l
    → IsListener l
unfolding read_address
read_address-IsListener current s l k h = elim (Option-cases (cut_last b':' s)) [
  | inl e ↦ absurd (ground arith)
  | inr ((addr, port), e) ↦ elim (Bool-cases (not_loopback (parse_hex_addr addr))) [
    | inl ok ↦
        listener_of-IsListener current _ l k (parse_int-le max_int32 16 port)
          (rw (read_address, e, ok) at h)
    | inr bad ↦ absurd (ground arith)
  ]
]

read_fields-IsListener :
    (current : Protocol) (parts : List Text) (l : Listener)
    → IsKnown current
    → read_fields current parts ≡ some l
    → IsListener l
unfolding read_fields
read_fields-IsListener current (a ∷ b ∷ c ∷ d ∷ rest) l k h =
    read_address-IsListener current b l k (ground arith)
read_fields-IsListener current _ l k h = cc

read_entry-IsListener :
    (current : Protocol) (line : Text) (l : Listener)
    → IsSection current
    → read_entry current line ≡ some l
    → IsListener l
unfolding read_entry
read_entry-IsListener unset line l sec h = cc
read_entry-IsListener tcp line l sec h = read_fields-IsListener tcp (fields line) l tt h
read_entry-IsListener udp line l sec h = read_fields-IsListener udp (fields line) l tt h
read_entry-IsListener (other o) line l sec h = elim sec [ ]

add_listener-All :
    (o : Option Listener) (seen : List Listener)
    → ((l : Listener) → o ≡ some l → IsListener l)
    → All IsListener seen
    → All IsListener (add_listener o seen)
unfolding add_listener
add_listener-All none seen hl h = h
add_listener-All (some m) seen hl h = elim (Bool-cases (mem_listener m seen)) [
  | inl old ↦ rw old h
  | inr new ↦ rw new (hl m refl, h)
]

pub scan_lines-All :
    (lines : List Text) (current : Protocol) (seen : List Listener)
    → IsSection current
    → All IsListener seen
    → All IsListener (scan_lines current seen lines)
unfolding scan_lines
scan_lines-All [] current seen sec h = h
scan_lines-All (raw ∷ lines) current seen sec h = elim (Bool-cases (is_nil (trim_space raw))) [
  | inl blank ↦ rw blank (scan_lines-All lines current seen sec h)
  | inr text ↦ elim (Option-cases (section_of (trim_space raw))) [
    | inl entry ↦
        rw (text, entry)
          (scan_lines-All lines current _ sec (
            add_listener-All (read_entry current (trim_space raw)) seen
              (λ l. read_entry-IsListener current (trim_space raw) l sec) h))
    | inr (p, marker) ↦
        rw (text, marker)
          (scan_lines-All lines p seen (IsSection-of_known p (section_of-IsKnown _ p marker)) h)
  ]
]
