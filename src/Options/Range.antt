-- ===== src/Options/Range.antt =====
-- internal/source_range.go, and the label that records a range in internal/forward.go.
use docker_port_forward.Common.{
  not, Option, none, some, [], ◌++◌, if◌then◌else◌, Result, ok, err, is_nil,
}
use docker_port_forward.Text.{Text, codes, contains_char, format_nat}
use docker_port_forward.Netip.{
  Addr, v4, parse_addr, without_zone, bit_len, addr_string, Prefix, no_prefix, prefix_of,
  prefix_valid, masked, parse_prefix, prefix_string,
}

pub data RangeError : Type 0 where
  invalid_range : RangeError

abbrev pub masked_range : Option Prefix → Result RangeError Prefix
masked_range none = err invalid_range
masked_range (some prefix) = ok (masked prefix)

-- A bare address is a range of one.
abbrev pub single_range : Option Addr → Result RangeError Prefix
single_range none = err invalid_range
single_range (some addr) = ok (prefix_of (without_zone addr) (bit_len (without_zone addr)))

unfoldable pub parse_source_range : Text → Result RangeError Prefix
parse_source_range value =
    if is_nil value
    then ok no_prefix
    else if contains_char b'/' value
    then masked_range (parse_prefix value)
    else single_range (parse_addr value)

unfoldable pub socat_range_options : Prefix → Text
socat_range_options no_prefix = []
socat_range_options (prefix_of (v4 bytes) bits) =
    codes ",pf=ip4,range=" ++ prefix_string (prefix_of (v4 bytes) bits)
socat_range_options (prefix_of addr bits) =
    codes ",pf=ip6,range=[" ++ (addr_string addr ++ (codes "]/" ++ format_nat bits))

unfoldable pub source_range_label : Prefix → Text
source_range_label prefix = if not (prefix_valid prefix) then [] else prefix_string prefix
