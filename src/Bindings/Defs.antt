-- ===== src/Bindings/Defs.antt =====
-- internal/forward.go: `PairAddresses`, and the encoding of port pairs and bindings.
use docker_port_forward.Common.{
  Bool, Option, none, some, List, [], ◌∷◌, ◌++◌, if◌then◌else◌, ℤ, Result, ok, err, is_nil, map,
  any,
}
use docker_port_forward.Text.{
  Text, codes, text_eq, trim_space, split, join, cut, cut_last, to_lower, atoi, itoa,
}
use docker_port_forward.Ports.{
  Protocol, tcp, udp, to_protocol, normalize_protocol, protocol_suffix, PortPair, pair_string,
  localhost, parse_port_spec,
}

abbrev pub mem : Text → List Text → Bool
mem a = any (λ b. text_eq a b)

-- the closure `add`: the map `seen` holds what stands in `out`
unfoldable pub add_address : List Text → Text → List Text
add_address out a = if mem a out then out else out ++ a ∷ []

abbrev pub loopback_v4 : Text
loopback_v4 = codes "127.0.0.1"

abbrev pub loopback_v6 : Text
loopback_v6 = codes "::1"

-- one round of the loop, on an address without white space around it
unfoldable pub expand_one : List Text → Text → List Text
expand_one out a =
    if is_nil a
    then out
    else if text_eq a localhost
    then add_address (add_address out loopback_v4) loopback_v6
    else add_address out a

unfoldable pub expand_each : List Text → List Text → List Text
expand_each out [] = out
expand_each out (a ∷ addrs) = expand_each (expand_one out (trim_space a)) addrs

unfoldable pub expand_addresses : List Text → List Text
expand_addresses [] = expand_each [] (localhost ∷ [])
expand_addresses (a ∷ addrs) = expand_each [] (a ∷ addrs)

unfoldable pub pair_addresses : PortPair → List Text → List Text
pair_addresses p defaults =
    if is_nil p.address then expand_addresses defaults else expand_addresses (p.address ∷ [])

unfoldable pub port_text : PortPair → Text
port_text p =
    itoa p.local_port
    ++ (b':' ∷ itoa p.remote_port ++ protocol_suffix (normalize_protocol p.protocol))

abbrev pub comma : Text
comma = b',' ∷ []

unfoldable pub encode_port_pairs : List PortPair → Text
encode_port_pairs pairs = join comma (map port_text pairs)

-- the elements that give a value
abbrev pub keep_some : {A B : Type 0} → (A → Option B) → List A → List B
keep_some f [] = []
keep_some f (x ∷ xs) = let rest = keep_some f xs in elim (f x) [ none ↦ rest | some y ↦ y ∷ rest ]

-- A label is a list of entries between commas, and those that are not understood are skipped.
unfoldable pub decode_list : {B : Type 0} → (Text → Option B) → Text → List B
decode_list f s = if is_nil s then [] else keep_some f (split b',' s)

numbers : Protocol → Option ℤ → Option ℤ → Option PortPair
numbers proto (some l) (some r) =
    some (record { address = []; local_port = l; remote_port = r; protocol = proto })
numbers proto _ _ = none

unfoldable pub decode_ports : Protocol → Text → Option PortPair
unfolding numbers
decode_ports proto tok = elim (cut b':' tok) [
  | none ↦ none
  | some (l, r) ↦ numbers proto (atoi l) (atoi r)
]

known_ports : Protocol → Text → Option PortPair
known_ports tcp tok = decode_ports tcp tok
known_ports udp tok = decode_ports udp tok
known_ports _ tok = none

-- one token of the label, without white space around it
unfoldable pub decode_token : Text → Option PortPair
unfolding known_ports
decode_token tok = if is_nil tok then none else elim (cut_last b'/' tok) [
  | none ↦ decode_ports tcp tok
  | some (ports, name) ↦ known_ports (to_protocol (to_lower name)) ports
]

unfoldable pub decode_port_pairs : Text → List PortPair
decode_port_pairs = decode_list (λ tok. decode_token (trim_space tok))

-- the printed bindings of one pair
unfoldable pub binding_texts : List Text → PortPair → List Text
binding_texts defaults p =
    map (λ a. pair_string (record p { address = a })) (pair_addresses p defaults)

abbrev pub concat_map : {A B : Type 0} → (A → List B) → List A → List B
concat_map f [] = []
concat_map f (x ∷ xs) = f x ++ concat_map f xs

unfoldable pub encode_bindings : List PortPair → List Text → Text
encode_bindings pairs defaults = join comma (concat_map (binding_texts defaults) pairs)

abbrev pub to_option : {E A : Type 0} → Result E A → Option A
to_option (ok a) = some a
to_option (err _) = none

unfoldable pub decode_bindings : Text → List PortPair
decode_bindings = decode_list (λ tok. to_option (parse_port_spec tok))
