-- ===== src/Ports/Tests.antt =====
-- Runs of the port specs of internal/ports_test.go, and the theorems at concrete inputs.
use docker_port_forward.Text.{itoa}
use docker_port_forward.Text.{text_eq}
use docker_port_forward.Text.{split}
use docker_port_forward.Ports.Defs.{to_protocol}
use docker_port_forward.Text.{to_lower}
use docker_port_forward.Ports.Defs.{validate_address}
use docker_port_forward.Text.{cut}
use docker_port_forward.Ports.Parse.{parse_port_number}
use docker_port_forward.Text.{is_space}
use docker_port_forward.Text.{trim_space}
use docker_port_forward.Netip.{parse_addr}
use docker_port_forward.Text.{cut_prefix}
use docker_port_forward.Text.{cut_last}
use docker_port_forward.Text.{contains_char}
use docker_port_forward.Text.{atoi}
use docker_port_forward.Common.{◌∷◌}
use docker_port_forward.Text.{Text}
use docker_port_forward.Ports.Parse.{zero_remote_port}
use docker_port_forward.Ports.Parse.{brackets_needed}
use docker_port_forward.Common.{true}
use docker_port_forward.Common.{List}
use docker_port_forward.Ports.Defs.{is_valid_address}
use docker_port_forward.Common.{err}
use docker_port_forward.Ports.Defs.{pair_string}
use docker_port_forward.Common.{[]}
use docker_port_forward.Ports.Defs.{tcp}
use docker_port_forward.Common.{inr, arith, ◌↔◌, ◌≢◌, All, ◌≡◌, refl, pos, ok}
use docker_port_forward.Text.{codes}
use docker_port_forward.Ports.Defs.{normalize_protocol, validate_addresses, udp, PortPair}
use docker_port_forward.Ports.Parse.{parse_port_specs, parse_port_spec}
use docker_port_forward.Ports.Bounds.{
  IsSound, parse_port_spec-IsSound, parse_port_specs-iff_Parsed, Parsed, validate_addresses_iff,
}
use docker_port_forward.Ports.RoundTrip.{IsCanonical, parse-string}
use docker_port_forward.Common.{◌≢◌, ◌↔◌, All, true, false, ltb, length, ◌⊎◌}
use docker_port_forward.Ports.Defs.{all_interfaces, validate_addresses}
use docker_port_forward.Ports.Parse.{parse_port_specs}

abbrev dns : PortPair
dns = record { address = codes "::1"; local_port = pos 5353; remote_port = pos 53; protocol = udp }

parse_dns : parse_port_spec (codes " [::1]:5353:53/UDP ") ≡ ok dns
unfolding parse_port_spec trim_space is_space cut_last to_protocol to_lower cut_prefix cut
    contains_char validate_address is_valid_address parse_addr parse_port_number atoi
parse_dns = refl

parse_empty_host :
    parse_port_spec (codes ":8080:80")
    ≡ ok (record {
      address = codes "*";
      local_port = pos 8080;
      remote_port = pos 80;
      protocol = tcp;
    })
unfolding parse_port_spec trim_space is_space cut_last cut_prefix split validate_address
    is_valid_address text_eq parse_port_number atoi
parse_empty_host = refl

parse_unbracketed : parse_port_spec (codes "::1:80:80") ≡ err brackets_needed
unfolding parse_port_spec trim_space is_space cut_last cut_prefix split
parse_unbracketed = refl

parse_zero : parse_port_spec (codes "8080:0") ≡ err zero_remote_port
unfolding parse_port_spec trim_space is_space cut_last cut_prefix split parse_port_number atoi
parse_zero = refl

dns_string : pair_string dns ≡ codes "[::1]:5353:53/udp"
unfolding pair_string contains_char itoa
dns_string = refl

parse_port_spec-IsSound_example : IsSound dns
parse_port_spec-IsSound_example =
    parse_port_spec-IsSound (codes " [::1]:5353:53/UDP ") dns parse_dns

dns-valid : is_valid_address (codes "::1") ≡ true
unfolding is_valid_address text_eq parse_addr
dns-valid = refl

dns-IsCanonical : IsCanonical dns
unfolding normalize_protocol
dns-IsCanonical = record {
  known = tt;
  local_fits = omega arith;
  remote_fits = omega arith;
  valid = inr dns-valid;
  no_slash = ground arith;
  no_close = ground arith;
}

parse-string_example :
    parse_port_spec (pair_string dns) ≡ ok (record dns { protocol = normalize_protocol udp })
parse-string_example = parse-string dns dns-IsCanonical

abbrev port_specs : List Text
port_specs = codes "8080:80" ∷ codes "[::1]:5353:53/udp" ∷ []

abbrev web : PortPair
web = record { address = []; local_port = pos 8080; remote_port = pos 80; protocol = tcp }

parse_port_specs-iff_Parsed_example :
    ((parse_port_specs port_specs ≡ ok (web ∷ dns ∷ []))
      ↔ ((port_specs ≢ []) × Parsed port_specs (web ∷ dns ∷ [])))
    × (Parsed port_specs (web ∷ dns ∷ []) → All IsSound (web ∷ dns ∷ []))
parse_port_specs-iff_Parsed_example = parse_port_specs-iff_Parsed port_specs (web ∷ dns ∷ [])

validate_addresses_iff_example :
    (validate_addresses (codes "*" ∷ codes "::1" ∷ []) ≡ ok tt)
    ↔ All
        (λ a.
          (is_valid_address a ≡ true)
          × ((ltb 1 (length (codes "*" ∷ codes "::1" ∷ [])) ≡ false)
              ⊎ (text_eq a all_interfaces ≡ false)))
        (codes "*" ∷ codes "::1" ∷ [])
validate_addresses_iff_example = validate_addresses_iff (codes "*" ∷ codes "::1" ∷ [])
