-- ===== src/Probe/HexAddr.antt =====
-- internal/probe.go: `parseHexAddr`, and the loopback test of Go's `net.IP`.
use docker_port_forward.Common.{
  zero, suc, ℕ, Bool, false, ◌&&◌, Option, none, some, List, [], ◌∷◌, ◌++◌, ◌==◌, if◌then◌else◌,
  length, take, drop,
}
use docker_port_forward.Text.{text_eq, Text, parse_uint}

-- one byte, from two hexadecimal digits
unfoldable pub hex_byte : ℕ → ℕ → Option ℕ
hex_byte a b = parse_uint 255 16 (a ∷ b ∷ [])

-- four bytes, last first
abbrev reverse_bytes : Option ℕ → Option ℕ → Option ℕ → Option ℕ → Option (List ℕ)
reverse_bytes (some a) (some b) (some c) (some d) = some (d ∷ c ∷ b ∷ a ∷ [])
reverse_bytes _ _ _ _ = none

-- a word of eight hexadecimal digits, written little-endian
unfoldable pub hex_word : Text → Option (List ℕ)
hex_word (a ∷ b ∷ c ∷ d ∷ e ∷ f ∷ g ∷ h ∷ []) =
    reverse_bytes (hex_byte a b) (hex_byte c d) (hex_byte e f) (hex_byte g h)
hex_word _ = none

-- `n` words, one behind the other
unfoldable pub hex_words : ℕ → Text → Option (List ℕ)
hex_words zero s = some []
hex_words (suc n) s = elim (hex_word (take 8 s)) [
  | none ↦ none
  | some word ↦ elim (hex_words n (drop 8 s)) [ none ↦ none | some rest ↦ some (word ++ rest) ]
]

-- `parseHexAddr`: an IPv4 address is one word, an IPv6 address is four.
unfoldable pub parse_hex_addr : Text → Option (List ℕ)
parse_hex_addr s =
    if length s == 8 then hex_words 1 s else if length s == 32 then hex_words 4 s else none

-- `IP.To4`: an IPv4 address, alone or behind ten zeros and two bytes 0xff.
unfoldable pub to_v4 : List ℕ → Option (List ℕ)
to_v4 ip =
    if length ip == 4
    then some ip
    else if length ip == 16
        && text_eq (take 12 ip) (0 ∷ 0 ∷ 0 ∷ 0 ∷ 0 ∷ 0 ∷ 0 ∷ 0 ∷ 0 ∷ 0 ∷ 0xff ∷ 0xff ∷ [])
    then some (drop 12 ip)
    else none

abbrev pub v6_loopback : List ℕ
v6_loopback = 0 ∷ 0 ∷ 0 ∷ 0 ∷ 0 ∷ 0 ∷ 0 ∷ 0 ∷ 0 ∷ 0 ∷ 0 ∷ 0 ∷ 0 ∷ 0 ∷ 0 ∷ 1 ∷ []

abbrev starts_with_127 : List ℕ → Bool
starts_with_127 [] = false
starts_with_127 (b ∷ bytes) = b == 127

-- `IP.IsLoopback`
unfoldable pub is_loopback : List ℕ → Bool
unfolding to_v4
is_loopback ip = elim (to_v4 ip) [
  | some bytes ↦ starts_with_127 bytes
  | none ↦ text_eq ip v6_loopback
]
