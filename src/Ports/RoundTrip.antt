-- ===== src/Ports/RoundTrip.antt =====
-- internal/ports.go: a printed port pair is read back.
mod Pieces
mod Body
pub use Pieces.{IsKnown, suffix-NonSpace}
pub use Body.{IsForeign}
use Body.{body-ne-nil, parse-body, body-Lacks, is_nil-append_left}
use Pieces.{
  parse_port_number-itoa, remote_of-itoa, itoa-All, is_nil-false, local_of-local_text,
  local_text-All, digits-NonSpace, ports_text, body_text, no_bracket, split-ports_text,
  split_parts-ports, split_parts-plain, split_parts-bracketed, udp_name, split_protocol-plain,
  split_protocol-append,
}
use docker_port_forward.Text.Trim.{All-Lacks, itoa-ne-nil, trim_space_fixed, Starts, NonSpace}
use docker_port_forward.Common.{
  negsuc, ℤ, sym, All-append, append-nil, append_assoc, ◌⊎◌, subst, ℕ, ◌≤◌, ◌<◌, ◌≡◌, ◌≢◌, refl, ap,
  ◌∙◌, true, false, inl, inr, none, some, [], ◌∷◌, ◌++◌, arith, ◌==◌, All, Bool-cases,
  if◌then◌else◌, pos, ok, is_nil,
}
use docker_port_forward.Ports.Address.{address-IsPlain, IsPlain}
use mathlib.Core.List.{append-eq-nil_iff}
use docker_port_forward.Text.{
  cut_last-append, cut_last-Lacks, codes, is_space, trim_space, to_lower, cut_prefix, Text, IsDigit,
  Lacks, cut-append, split-append, split-Lacks, itoa, atoi-itoa_pos, format_nat-All,
  format_nat-ne-nil, contains_char, split, is_space-ascii,
}
use docker_port_forward.Ports.Defs.{
  PortPair, normalize_protocol, pair_string, validate_address, tcp, udp, to_protocol,
  is_valid_address, protocol_suffix, Protocol, local_text, format_address,
}
use docker_port_forward.Ports.Parse.{
  check_address, parse_port_spec, split_protocol, parse_port_number, split_parts, remote_of,
  local_of,
}

-- A port from `lo` to 65535.
abbrev pub InPorts : ℕ → ℤ → Type 0
InPorts lo (pos n) = (lo ≤ n) × (n ≤ 65535)
InPorts lo (negsuc n) = ⊥

-- A pair whose printed form is a port spec.
pub record IsCanonical (p : PortPair) : Type 0 where
  pub known : IsKnown (normalize_protocol p.protocol)
  pub local_fits : InPorts 0 p.local_port
  pub remote_fits : InPorts 1 p.remote_port
  pub valid : (is_nil p.address ≡ true) ⊎ (is_valid_address p.address ≡ true)
  pub no_slash : Lacks b'/' p.address
  pub no_close : Lacks b']' p.address

pair_string-body :
    (a : Text) (l r : ℕ) (proto : Protocol)
    → pair_string
        (record { address = a; local_port = pos l; remote_port = pos r; protocol = proto })
      ≡ body_text a l r ++ protocol_suffix (normalize_protocol proto)
unfolding pair_string
pair_string-body [] l r proto = simp append_assoc
pair_string-body (c ∷ a) l r proto = simp append_assoc

parse-string_at :
    (l r : ℤ) (a : Text) (proto : Protocol)
    → let p : PortPair = record {
      address = a;
      local_port = l;
      remote_port = r;
      protocol = proto;
    } in
      IsCanonical p
      → parse_port_spec (pair_string p) ≡ ok (record p { protocol = normalize_protocol proto })
parse-string_at (pos l) (pos r) a proto c = rw (pair_string-body a l r proto) (
    parse-body a l c.valid c.no_slash c.no_close r (normalize_protocol proto) c.known c.local_fits.1
      c.remote_fits.0 c.remote_fits.1)
parse-string_at (negsuc l) r a proto c = absurd c.local_fits
parse-string_at (pos l) (negsuc r) a proto c = absurd c.remote_fits

string_at-IsEntry :
    (b : ℕ) (l r : ℤ) (a : Text) (proto : Protocol)
    → let p : PortPair = record {
      address = a;
      local_port = l;
      remote_port = r;
      protocol = proto;
    } in
      IsCanonical p
      → IsForeign b
      → Lacks b a
      → Lacks b (protocol_suffix (normalize_protocol proto))
      → (is_nil (pair_string p) ≡ false) × Lacks b (pair_string p)
string_at-IsEntry b (pos l) (pos r) a proto c foreign lacks suffix_lacks =
    rw (pair_string-body a l r proto) (
      is_nil-append_left _ _ (body-ne-nil a l c.valid c.no_slash c.no_close r),
      All-append _ (body_text a l r) _ (body-Lacks b a l r foreign lacks) suffix_lacks,
    )
string_at-IsEntry b (negsuc l) r a proto c foreign lacks h = absurd c.local_fits
string_at-IsEntry b (pos l) (negsuc r) a proto c foreign lacks h = absurd c.remote_fits

-- The printed form of a pair parses back to the pair with its protocol normalised, if the ports are
-- in range, the remote port is not zero, the protocol is empty, TCP or UDP, and the address is empty
-- or a valid one with no slash and no closing bracket (an IPv6 zone could hold them).
pub parse-string :
    (p : PortPair)
    → IsCanonical p
    → parse_port_spec (pair_string p) ≡ ok (record p { protocol = normalize_protocol p.protocol })
parse-string p c = parse-string_at p.local_port p.remote_port p.address p.protocol c

-- The printed form is not empty, and has a separator such as the comma only if the address has it.
pub pair_string-IsEntry :
    (b : ℕ) (p : PortPair)
    → IsCanonical p
    → IsForeign b
    → Lacks b p.address
    → Lacks b (protocol_suffix (normalize_protocol p.protocol))
    → (is_nil (pair_string p) ≡ false) × Lacks b (pair_string p)
pair_string-IsEntry b p = string_at-IsEntry b p.local_port p.remote_port p.address p.protocol
