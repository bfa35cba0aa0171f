-- ===== src/Ports/Defs.antt =====
-- internal/ports.go: protocols, port pairs and their printed form, and bind addresses.
use docker_port_forward.Common.{
  Bool, true, false, ◌&&◌, ◌||◌, not, Option, none, some, List, [], ◌∷◌, ◌++◌, ltb, if◌then◌else◌,
  ℤ, pos, int_eq, Result, ok, err, length, is_nil,
}
use docker_port_forward.Text.{Text, codes, text_eq, contains_char, itoa}
use docker_port_forward.Netip.{parse_addr}

-- `Protocol` is a string: empty, "tcp", "udp", or any other text.
pub data Protocol : Type 0 where
  unset tcp udp : Protocol
  other : Text → Protocol

unfoldable pub protocol_text : Protocol → Text
protocol_text unset = []
protocol_text tcp = codes "tcp"
protocol_text udp = codes "udp"
protocol_text (other t) = t

-- `Protocol(s)`
unfoldable pub to_protocol : Text → Protocol
unfolding text_eq
to_protocol s =
    if is_nil s
    then unset
    else if text_eq s (codes "tcp")
    then tcp
    else if text_eq s (codes "udp")
    then udp
    else other s

unfoldable pub protocol_eq : Protocol → Protocol → Bool
protocol_eq unset unset = true
protocol_eq tcp tcp = true
protocol_eq udp udp = true
protocol_eq (other s) (other t) = text_eq s t
protocol_eq _ _ = false

unfoldable pub normalize_protocol : Protocol → Protocol
normalize_protocol unset = tcp
normalize_protocol tcp = tcp
normalize_protocol udp = udp
normalize_protocol (other t) = other t

pub record PortPair : Type 0 where
  pub address : Text
  pub local_port : ℤ
  pub remote_port : ℤ
  pub protocol : Protocol

-- The suffix that names a protocol, left out for the default.
unfoldable pub protocol_suffix : Protocol → Text
unfolding protocol_text
protocol_suffix tcp = []
protocol_suffix p = b'/' ∷ protocol_text p

unfoldable pub format_address : Text → Text
format_address addr = if contains_char b':' addr then b'[' ∷ addr ++ (b']' ∷ []) else addr

-- a local port of zero is left out
unfoldable pub local_text : ℤ → Text
local_text p = if int_eq p (pos 0) then [] else itoa p

-- `PortPair.String`
unfoldable pub pair_string : PortPair → Text
unfolding protocol_suffix normalize_protocol format_address local_text
pair_string p =
    let suffix = protocol_suffix (normalize_protocol p.protocol) in
    let loc = local_text p.local_port in
    let ports = loc ++ (b':' ∷ itoa p.remote_port ++ suffix) in
    if is_nil p.address then ports else format_address p.address ++ (b':' ∷ ports)

abbrev pub all_interfaces : Text
all_interfaces = b'*' ∷ []

abbrev pub localhost : Text
localhost = codes "localhost"

abbrev pub is_some : {A : Type 0} → Option A → Bool
is_some none = false
is_some (some _) = true

unfoldable pub is_valid_address : Text → Bool
is_valid_address addr =
    text_eq addr localhost || text_eq addr all_interfaces || is_some (parse_addr addr)

pub data AddressError : Type 0 where
  invalid_address : Text → AddressError
  invalid_flag : Text → AddressError
  not_combinable : AddressError

unfoldable pub validate_address : Text → Result AddressError (Unit {0})
validate_address addr = if is_valid_address addr then ok tt else err (invalid_address addr)

-- The loop over the addresses; `many` says that the whole list has more than one.
unfoldable pub validate_each : Bool → List Text → Result AddressError (Unit {0})
validate_each many [] = ok tt
validate_each many (addr ∷ addrs) =
    let rest = validate_each many addrs in
    if not (is_valid_address addr)
    then err (invalid_flag addr)
    else if text_eq addr all_interfaces && many
    then err not_combinable
    else rest

unfoldable pub validate_addresses : List Text → Result AddressError (Unit {0})
unfolding validate_each
validate_addresses addrs = validate_each (ltb 1 (length addrs)) addrs
