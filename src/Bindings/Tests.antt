-- ===== src/Bindings/Tests.antt =====
-- Runs of the labels' encoding, and the theorems at concrete inputs.
use docker_port_forward.Bindings.Defs.{
  decode_token, decode_ports, decode_list, port_text, encode_port_pairs, decode_port_pairs,
  expand_addresses, expand_each, expand_one, add_address, pair_addresses, mem, encode_bindings,
  decode_bindings, concat_map, loopback_v4, loopback_v6,
}
use docker_port_forward.Ports.{
  to_protocol, protocol_suffix, PortPair, tcp, udp, unset, normalize_protocol, is_valid_address,
}
use docker_port_forward.Common.{
  subst, sym, ◌≡◌, refl, true, [], ◌∷◌, map, pos, negsuc, arith, All, any, inr,
}
use docker_port_forward.Text.{
  codes, split, join, trim_space, is_space, cut, cut_last, text_eq, to_lower, atoi, itoa,
}
use docker_port_forward.Netip.{parse_addr}
use docker_port_forward.Bindings.Addresses.{expand_addresses-mem, stands_for, or_localhost, IsNodup}
use docker_port_forward.Bindings.RoundTrip.{
  IsRecordable, recorded, decode-encode_port_pairs, IsBindable, AllBindable, bound,
  decode-encode_bindings,
}

abbrev web : PortPair
web = record { address = []; local_port = pos 8080; remote_port = pos 80; protocol = unset }

abbrev dns : PortPair
dns = record {
  address = codes "10.0.0.1";
  local_port = pos 53;
  remote_port = pos 53;
  protocol = udp;
}

encode_two : encode_port_pairs (web ∷ dns ∷ []) ≡ codes "8080:80,53:53/udp"
unfolding encode_port_pairs join port_text itoa protocol_suffix normalize_protocol
encode_two = refl

-- Negative and unknown entries: a negative port is kept, the others are skipped.
decode_odd :
    decode_port_pairs (codes "-5:80,x:1,7,1:2/sctp")
    ≡ record { address = []; local_port = negsuc 4; remote_port = pos 80; protocol = tcp } ∷ []
unfolding decode_port_pairs decode_list split decode_token trim_space is_space cut_last decode_ports
    cut atoi to_protocol to_lower
decode_odd = refl

web-IsRecordable : IsRecordable web
unfolding normalize_protocol
web-IsRecordable = record { known = tt; local_fits = omega arith; remote_fits = omega arith }

dns-IsRecordable : IsRecordable dns
unfolding normalize_protocol
dns-IsRecordable = record { known = tt; local_fits = omega arith; remote_fits = omega arith }

decode-encode_port_pairs_example :
    decode_port_pairs (encode_port_pairs (web ∷ dns ∷ [])) ≡ map recorded (web ∷ dns ∷ [])
decode-encode_port_pairs_example =
    decode-encode_port_pairs (web ∷ dns ∷ []) (web-IsRecordable, (dns-IsRecordable, tt))

expand_addresses-mem_example :
    (mem loopback_v6 (expand_addresses [])
      ≡ any (λ entry. stands_for entry loopback_v6) (or_localhost []))
    × IsNodup (expand_addresses [])
expand_addresses-mem_example = expand_addresses-mem [] loopback_v6

expanded :
    expand_addresses (codes "127.0.0.1" ∷ codes " localhost " ∷ [] ∷ [])
    ≡ loopback_v4 ∷ loopback_v6 ∷ []
unfolding expand_addresses expand_each expand_one trim_space is_space text_eq add_address
expanded = refl

web_addresses : pair_addresses web [] ≡ loopback_v4 ∷ loopback_v6 ∷ []
unfolding pair_addresses expand_addresses expand_each expand_one trim_space is_space text_eq
    add_address
web_addresses = refl

valid_v4 : is_valid_address loopback_v4 ≡ true
unfolding is_valid_address text_eq parse_addr
valid_v4 = refl

valid_v6 : is_valid_address loopback_v6 ≡ true
unfolding is_valid_address text_eq parse_addr
valid_v6 = refl

web_bindable : AllBindable [] (web ∷ [])
unfolding normalize_protocol
web_bindable = (
  subst (All (IsBindable web)) (sym web_addresses) (
    record {
      canonical = record {
        known = tt;
        local_fits = omega arith;
        remote_fits = omega arith;
        valid = inr valid_v4;
        no_slash = ground arith;
        no_close = ground arith;
      };
      no_comma = ground arith;
    },
    (
      record {
        canonical = record {
          known = tt;
          local_fits = omega arith;
          remote_fits = omega arith;
          valid = inr valid_v6;
          no_slash = ground arith;
          no_close = ground arith;
        };
        no_comma = ground arith;
      },
      tt,
    ),
  ),
  tt,
)

decode-encode_bindings_example :
    decode_bindings (encode_bindings (web ∷ []) []) ≡ concat_map (bound []) (web ∷ [])
decode-encode_bindings_example = decode-encode_bindings (web ∷ []) [] web_bindable
