-- ===== src/Netip/Address.antt =====
-- `netip.Addr`.
use docker_port_forward.Common.{ℕ, Bool, true, false, List, [], ◌&&◌}
use docker_port_forward.Text.{Text, text_eq}

-- The zero value, an IPv4 address of four bytes, and an IPv6 address of eight 16-bit groups with
-- its zone.
pub data Addr : Type 0 where
  invalid : Addr
  v4 : List ℕ → Addr
  v6 : List ℕ → Text → Addr

-- `Addr.IsValid`
unfoldable pub is_valid : Addr → Bool
is_valid invalid = false
is_valid (v4 _) = true
is_valid (v6 _ _) = true

-- `Addr.WithZone` with an empty zone
unfoldable pub without_zone : Addr → Addr
without_zone invalid = invalid
without_zone (v4 bytes) = v4 bytes
without_zone (v6 groups _) = v6 groups []

-- `Addr.BitLen`
unfoldable pub bit_len : Addr → ℕ
bit_len invalid = 0
bit_len (v4 _) = 32
bit_len (v6 _ _) = 128

same_numbers : List ℕ → List ℕ → Bool
unfolding text_eq
same_numbers = text_eq

-- `==` on addresses
unfoldable pub addr_eq : Addr → Addr → Bool
unfolding same_numbers
addr_eq invalid invalid = true
addr_eq (v4 a) (v4 b) = same_numbers a b
addr_eq (v6 a z) (v6 b y) = same_numbers a b && text_eq z y
addr_eq _ _ = false
