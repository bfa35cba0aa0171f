-- ===== src/Probe/Tests.antt =====
-- Runs of the probe's parser, and the theorems at concrete inputs.
use docker_port_forward.Common.{ℕ, ◌≡◌, refl, some, [], ◌∷◌, ◌++◌, pos, arith, All, any}
use docker_port_forward.Text.{
  codes, Text, split, parse_int, trim_space, is_space, fields, cut_last, text_eq, parse_uint,
  text_lt,
}
use docker_port_forward.Ports.{Protocol, tcp, udp, unset, protocol_eq, protocol_text}
use docker_port_forward.Probe.HexAddr.{parse_hex_addr, is_loopback, hex_words, hex_word, hex_byte}
use docker_port_forward.Probe.Listeners.{
  Listener, extract_listeners, mem_listener, sort_listeners, scan_lines, section_of, add_listener,
  read_entry, read_fields, want_state, read_address, insert_listener, listener_eq, listener_less,
}
use docker_port_forward.Probe.HexRoundTrip.{
  Word, KernelAddr, ipv6, addr_text, addr_bytes, parse_hex_addr-text,
}
use docker_port_forward.Probe.Reported.{extract_listeners_lem, reports, entries}
use docker_port_forward.Probe.Sorted.{IsAscending}
use docker_port_forward.Probe.Ports.{IsListener}

abbrev newline : Text
newline = 10 ∷ []

abbrev header : Text
header = codes "  sl  local_address rem_address   st"

-- The second TCP socket is on loopback and the third is not listening; one port is bound on TCP and
-- TCP6.
abbrev probe_output : Text
probe_output =
    codes "===tcp==="
    ++ newline
    ++ header
    ++ newline
    ++ codes "   0: 00000000:1F90 00000000:0000 0A"
    ++ newline
    ++ codes "   1: 0100007F:0050 00000000:0000 0A"
    ++ newline
    ++ codes "   2: 00000000:0051 00000000:0000 01"
    ++ newline
    ++ codes "===tcp6==="
    ++ newline
    ++ codes "   0: 00000000000000000000000000000000:1F90 0 0A"
    ++ newline
    ++ codes "   1: 00000000000000000000000000000000:0016 0 0A"
    ++ newline
    ++ codes "===udp==="
    ++ newline
    ++ codes "   0: 00000000:0035 00000000:0000 07"
    ++ newline

abbrev on : ℕ → Protocol → Listener
on n p = record { port = pos n; protocol = p }

extract_probe_output : extract_listeners probe_output ≡ on 22 tcp ∷ on 8080 tcp ∷ on 53 udp ∷ []
unfolding extract_listeners sort_listeners scan_lines section_of add_listener read_entry read_fields
    want_state read_address insert_listener listener_eq listener_less split trim_space is_space
    text_eq fields cut_last text_lt parse_int parse_uint parse_hex_addr hex_words hex_word hex_byte
    is_loopback protocol_eq protocol_text
extract_probe_output = refl

abbrev loopback_word : Word
loopback_word = record { byte0 = 127; byte1 = 0; byte2 = 0; byte3 = 1 }

abbrev loopback_addr : KernelAddr
loopback_addr = ipv6 loopback_word loopback_word loopback_word loopback_word

parse_hex_addr-text_example :
    parse_hex_addr (addr_text loopback_addr) ≡ some (addr_bytes loopback_addr)
parse_hex_addr-text_example = parse_hex_addr-text loopback_addr (omega arith)

extract_listeners_lem_example :
    ((l : Listener)
      → mem_listener l (extract_listeners probe_output)
        ≡ any (reports l) (entries unset (split 10 probe_output)))
    × IsAscending (extract_listeners probe_output)
    × All IsListener (extract_listeners probe_output)
extract_listeners_lem_example = extract_listeners_lem probe_output
