-- ===== src/Probe/HexRoundTrip.antt =====
-- internal/probe.go: the addresses of /proc/net are read back.
use docker_port_forward.Probe.HexAddr.{hex_words, parse_hex_addr, hex_byte, hex_word}
use docker_port_forward.Common.{
  List, ℕ, ◌+◌, ◌-◌, ◌/◌, ◌%◌, ◌<◌, ◌≡◌, refl, some, [], ◌∷◌, ◌++◌, if◌then◌else◌, ltb, arith,
}
use docker_port_forward.Text.{Text, parse_uint}

-- `%X` of one digit
abbrev upper_digit : ℕ → ℕ
upper_digit d = if ltb d 10 then b'0' + d else b'A' + (d - 10)

-- `%02X`
abbrev pub print_byte : ℕ → Text
print_byte b = upper_digit (b / 16) ∷ upper_digit (b % 16) ∷ []

hex_byte-print : (b : ℕ) → b < 256 → hex_byte (upper_digit (b / 16)) (upper_digit (b % 16)) ≡ some b
unfolding hex_byte parse_uint
hex_byte-print b h = ground arith

-- A word of four bytes, as a little-endian machine prints it with `%08X`.
abbrev pub print_word : ℕ → ℕ → ℕ → ℕ → Text
print_word a b c d = print_byte d ++ (print_byte c ++ (print_byte b ++ print_byte a))

hex_word-print :
    (a b c d : ℕ)
    → a < 256
    → b < 256
    → c < 256
    → d < 256
    → hex_word (print_word a b c d) ≡ some (a ∷ b ∷ c ∷ d ∷ [])
unfolding hex_word
hex_word-print a b c d ha hb hc hd =
    rw (hex_byte-print a ha, hex_byte-print b hb, hex_byte-print c hc, hex_byte-print d hd) refl

-- A word in memory: its four bytes.
pub record Word : Type 0 where
  pub byte0 : ℕ
  pub byte1 : ℕ
  pub byte2 : ℕ
  pub byte3 : ℕ

abbrev pub IsWord : Word → Type 0
IsWord w = (w.byte0 < 256) × (w.byte1 < 256) × (w.byte2 < 256) × (w.byte3 < 256)

abbrev pub word_bytes : Word → List ℕ
word_bytes w = w.byte0 ∷ w.byte1 ∷ w.byte2 ∷ w.byte3 ∷ []

abbrev pub word_text : Word → Text
word_text w = print_word w.byte0 w.byte1 w.byte2 w.byte3

word-print : (w : Word) → IsWord w → hex_word (word_text w) ≡ some (word_bytes w)
word-print w h = hex_word-print w.byte0 w.byte1 w.byte2 w.byte3 h.0 h.1 h.2 h.3

parse_hex_addr-v4 : (w : Word) → IsWord w → parse_hex_addr (word_text w) ≡ some (word_bytes w)
unfolding parse_hex_addr hex_words
parse_hex_addr-v4 w h = rw (parse_hex_addr, hex_words, word-print w h) refl

parse_hex_addr-v6 :
    (w x y z : Word)
    → IsWord w
    → IsWord x
    → IsWord y
    → IsWord z
    → parse_hex_addr (word_text w ++ (word_text x ++ (word_text y ++ word_text z)))
      ≡ some (word_bytes w ++ (word_bytes x ++ (word_bytes y ++ word_bytes z)))
unfolding parse_hex_addr hex_words
parse_hex_addr-v6 w x y z hw hx hy hz =
    rw
      (
        parse_hex_addr,
        hex_words,
        word-print w hw,
        word-print x hx,
        word-print y hy,
        word-print z hz,
      )
      refl

-- An address of the kernel: one word for IPv4 and four for IPv6.
pub data KernelAddr : Type 0 where
  ipv4 : Word → KernelAddr
  ipv6 : Word → Word → Word → Word → KernelAddr

abbrev pub IsKernelAddr : KernelAddr → Type 0
IsKernelAddr (ipv4 w) = IsWord w
IsKernelAddr (ipv6 w x y z) = IsWord w × IsWord x × IsWord y × IsWord z

abbrev pub addr_bytes : KernelAddr → List ℕ
addr_bytes (ipv4 w) = word_bytes w
addr_bytes (ipv6 w x y z) = word_bytes w ++ (word_bytes x ++ (word_bytes y ++ word_bytes z))

-- Each word is little-endian.
abbrev pub addr_text : KernelAddr → Text
addr_text (ipv4 w) = word_text w
addr_text (ipv6 w x y z) = word_text w ++ (word_text x ++ (word_text y ++ word_text z))

-- `parseHexAddr` gives back the bytes of an address, of IPv4 or of IPv6, that the kernel of a
-- little-endian machine prints in hexadecimal, one word after the other.
pub parse_hex_addr-text :
    (a : KernelAddr) → IsKernelAddr a → parse_hex_addr (addr_text a) ≡ some (addr_bytes a)
parse_hex_addr-text (ipv4 w) h = parse_hex_addr-v4 w h
parse_hex_addr-text (ipv6 w x y z) (hw, hx, hy, hz) = parse_hex_addr-v6 w x y z hw hx hy hz
