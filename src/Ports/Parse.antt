-- ===== src/Ports/Parse.antt =====
-- internal/ports.go: port specs are parsed.
use docker_port_forward.Common.{
  ◌||◌, not, Option, none, some, List, [], ◌∷◌, ltb, ◌==◌, if◌then◌else◌, ℤ, pos, negsuc, int_eq,
  Result, ok, err, is_nil, ◌>>=◌, ◌>>◌,
}
use docker_port_forward.Text.{
  cut_prefix, Text, contains_char, atoi, trim_space, cut, cut_last, to_lower, split,
}
use docker_port_forward.Ports.Defs.{
  Protocol, tcp, udp, to_protocol, PortPair, all_interfaces, AddressError, validate_address,
}

pub data SpecError : Type 0 where
  empty_spec : SpecError
  no_specs : SpecError
  unsupported_protocol : Text → SpecError
  missing_port : SpecError
  missing_bracket : SpecError
  bad_bracketed_form : SpecError
  bad_bracketed_address : Text → SpecError
  brackets_needed : SpecError
  bad_address : AddressError → SpecError
  bad_remote_port : SpecError
  zero_remote_port : SpecError
  bad_local_port : SpecError

-- `strconv.Atoi`, then the range 0 to 65535.
unfoldable pub parse_port_number : Text → Option ℤ
parse_port_number s = elim (atoi s) [
  | none ↦ none
  | some (pos n) ↦ (if ltb 65535 n then none else some (pos n))
  | some (negsuc n) ↦ none
]

abbrev pub known_protocol : Protocol → Text → Text → Result SpecError (Protocol × Text)
known_protocol tcp name ports = if is_nil ports then err missing_port else ok (tcp, ports)
known_protocol udp name ports = if is_nil ports then err missing_port else ok (udp, ports)
known_protocol _ name ports = err (unsupported_protocol name)

-- The protocol behind the last slash, and the ports before it.
unfoldable pub split_protocol : Text → Result SpecError (Protocol × Text)
split_protocol spec = elim (cut_last b'/' spec) [
  | none ↦ ok (tcp, spec)
  | some (before, after) ↦
      let name = to_lower (trim_space after) in
      known_protocol (to_protocol name) name (trim_space before)
]

-- address, local port and remote port, as text
abbrev pub Parts : Type 0
Parts = Text × Text × Text

abbrev ports_of : Text → Option (Text × Text) → Result SpecError Parts
ports_of address none = err bad_bracketed_form
ports_of address (some (loc, remote)) =
    if is_nil address || not (contains_char b':' address)
    then err (bad_bracketed_address address)
    else ok (address, loc, remote)

-- what follows the closing bracket
abbrev after_bracket : Text → Text → Result SpecError Parts
after_bracket address [] = err bad_bracketed_form
after_bracket address (c ∷ rest) =
    if c == b':' then ports_of address (cut b':' rest) else err bad_bracketed_form

abbrev bracketed : Option (Text × Text) → Result SpecError Parts
bracketed none = err missing_bracket
bracketed (some (address, rest)) = after_bracket address rest

abbrev by_parts : List Text → Result SpecError Parts
by_parts (a ∷ []) = ok ([], a, a)
by_parts (a ∷ b ∷ []) = ok ([], a, b)
by_parts (a ∷ b ∷ c ∷ []) = ok (if is_nil a then all_interfaces else a, b, c)
by_parts _ = err brackets_needed

-- The text of a spec without its protocol, cut into address and ports.
unfoldable pub split_parts : Text → Result SpecError Parts
split_parts spec = elim (cut_prefix (b'[' ∷ []) spec) [
  | some rest ↦ bracketed (cut b']' rest)
  | none ↦ by_parts (split b':' spec)
]

unfoldable pub check_address : Text → Result SpecError (Unit {0})
check_address address =
    if is_nil address
    then ok tt
    else elim (validate_address address) [ ok _ ↦ ok tt | err e ↦ err (bad_address e) ]

unfoldable pub remote_of : Text → Result SpecError ℤ
remote_of s = elim (parse_port_number s) [
  | none ↦ err bad_remote_port
  | some n ↦ if int_eq n (pos 0) then err zero_remote_port else ok n
]

unfoldable pub local_of : Text → Result SpecError ℤ
local_of s =
    if is_nil s
    then ok (pos 0)
    else elim (parse_port_number s) [ none ↦ err bad_local_port | some n ↦ ok n ]

unfoldable pub pair_of : Protocol → Parts → Result SpecError PortPair
unfolding check_address remote_of local_of
pair_of proto (address, loc, remote) = do
  check_address address
  r ← remote_of remote
  l ← local_of loc
  ok (record { address = address; local_port = l; remote_port = r; protocol = proto })

-- a spec without the white space around it
unfoldable pub parse_trimmed : Text → Result SpecError PortPair
unfolding split_protocol split_parts pair_of
parse_trimmed spec =
    if is_nil spec
    then err empty_spec
    else do (proto, ports) ← split_protocol spec; parts ← split_parts ports; pair_of proto parts

unfoldable pub parse_port_spec : Text → Result SpecError PortPair
unfolding parse_trimmed
parse_port_spec spec = parse_trimmed (trim_space spec)

unfoldable pub parse_each : List Text → Result SpecError (List PortPair)
parse_each [] = ok []
parse_each (s ∷ specs) = do p ← parse_port_spec s; ps ← parse_each specs; ok (p ∷ ps)

unfoldable pub parse_port_specs : List Text → Result SpecError (List PortPair)
unfolding parse_each
parse_port_specs [] = err no_specs
parse_port_specs (s ∷ specs) = parse_each (s ∷ specs)
