-- ===== src/Probe/Listeners.antt =====
-- internal/probe.go: `ExtractListeners`.
use docker_port_forward.Common.{
  ◌-◌, ◌^◌, ◌==◌, ℕ, Bool, false, ◌&&◌, not, Option, none, some, List, [], ◌∷◌, if◌then◌else◌, ℤ,
  pos, int_eq, int_lt, any, is_nil,
}
use docker_port_forward.Text.{
  Text, codes, text_eq, text_lt, trim_space, split, fields, cut_last, parse_int,
}
use docker_port_forward.Ports.{Protocol, unset, tcp, udp, protocol_eq, protocol_text}
use docker_port_forward.Probe.HexAddr.{parse_hex_addr, is_loopback}

pub record Listener : Type 0 where
  pub port : ℤ
  pub protocol : Protocol

-- `markerProto`, from the table `probeSections`
unfoldable pub section_of : Text → Option Protocol
section_of line =
    if text_eq line (codes "===tcp===")
    then some tcp
    else if text_eq line (codes "===tcp6===")
    then some tcp
    else if text_eq line (codes "===udp===")
    then some udp
    else if text_eq line (codes "===udp6===")
    then some udp
    else none

-- The state of a listening TCP socket, and of a bound UDP socket.
unfoldable pub want_state : Protocol → Text
unfolding protocol_eq
want_state current = if protocol_eq current udp then codes "07" else codes "0A"

abbrev pub not_loopback : Option (List ℕ) → Bool
not_loopback none = false
not_loopback (some ip) = not (is_loopback ip)

-- A port that is no number, or not above zero, is skipped.
abbrev pub listener_of : Protocol → Option ℤ → Option Listener
listener_of current (some (pos n)) =
    if n == 0 then none else some (record { port = pos n; protocol = current })
listener_of current _ = none

abbrev pub max_int32 : ℕ
max_int32 = 2 ^ 31 - 1

unfoldable pub read_address : Protocol → Text → Option Listener
read_address current addr_port = elim (cut_last b':' addr_port) [
  | none ↦ none
  | some (addr, port) ↦
      if not_loopback (parse_hex_addr addr)
      then listener_of current (parse_int max_int32 16 port)
      else none
]

-- the local address is the second field, and the state the fourth
unfoldable pub read_fields : Protocol → List Text → Option Listener
read_fields current (_ ∷ addr_port ∷ _ ∷ state ∷ _) =
    if text_eq state (want_state current) then read_address current addr_port else none
read_fields current _ = none

-- An entry of a section; there is none before the first marker.
unfoldable pub read_entry : Protocol → Text → Option Listener
read_entry unset line = none
read_entry current line = read_fields current (fields line)

unfoldable pub listener_eq : Listener → Listener → Bool
listener_eq a b = int_eq a.port b.port && protocol_eq a.protocol b.protocol

abbrev pub mem_listener : Listener → List Listener → Bool
mem_listener a = any (λ b. listener_eq a b)

-- The map `seen`, which holds each key once.
unfoldable pub add_listener : Option Listener → List Listener → List Listener
add_listener none seen = seen
add_listener (some l) seen = if mem_listener l seen then seen else l ∷ seen

-- The loop over the lines, without white space around them.
unfoldable pub scan_lines : Protocol → List Listener → List Text → List Listener
scan_lines current seen [] = seen
scan_lines current seen (raw ∷ lines) =
    let line = trim_space raw in
    let next = section_of line in
    scan_lines (if is_nil line then current else elim next [ some p ↦ p | none ↦ current ])
      (if is_nil line
        then seen
        else elim next [ some p ↦ seen | none ↦ add_listener (read_entry current line) seen ])
      lines

-- the order given to `sort.Slice`
unfoldable pub listener_less : Listener → Listener → Bool
unfolding protocol_eq text_lt protocol_text
listener_less a b =
    if not (protocol_eq a.protocol b.protocol)
    then text_lt (protocol_text a.protocol) (protocol_text b.protocol)
    else int_lt a.port b.port

unfoldable pub insert_listener : Listener → List Listener → List Listener
insert_listener a [] = a ∷ []
insert_listener a (b ∷ rest) =
    let further = insert_listener a rest in if listener_less a b then a ∷ b ∷ rest else b ∷ further

unfoldable pub sort_listeners : List Listener → List Listener
sort_listeners [] = []
sort_listeners (a ∷ rest) = insert_listener a (sort_listeners rest)

unfoldable pub extract_listeners : Text → List Listener
extract_listeners text = sort_listeners (scan_lines unset [] (split 10 text))
