-- ===== src/Netip/Format.antt =====
-- `Addr.String`.
use docker_port_forward.Common.{
  ℕ, suc, ◌+◌, ◌-◌, ◌/◌, ◌%◌, ◌&&◌, List, [], ◌∷◌, ◌++◌, ltb, ◌==◌, if◌then◌else◌, take, drop, map,
  ◌≡◌, refl,
}
use docker_port_forward.Text.{Text, codes, join, format_nat}
use docker_port_forward.Netip.Address.{Addr, invalid, v4, v6}

dotted : List ℕ → Text
unfolding join format_nat
dotted bytes = join (b'.' ∷ []) (map format_nat bytes)

hex_char : ℕ → ℕ
hex_char d = if ltb d 10 then b'0' + d else b'a' + (d - 10)

-- a group in hexadecimal, with no leading zero
hex_group : ℕ → Text
unfolding hex_char
hex_group g =
    let low = hex_char (g % 16) ∷ [] in
    let two = hex_char (g / 16 % 16) ∷ low in
    let three = hex_char (g / 256 % 16) ∷ two in
    let four = hex_char (g / 4096 % 16) ∷ three in
    if ltb g 16 then low else if ltb g 256 then two else if ltb g 4096 then three else four

leading_zeros : List ℕ → ℕ
leading_zeros [] = 0
leading_zeros (g ∷ gs) = let n = leading_zeros gs in if g == 0 then suc n else 0

-- The first longest run of at least two groups of zeros: where it starts, and its length.
longest_run : ℕ → List ℕ → ℕ × ℕ → ℕ × ℕ
unfolding leading_zeros
longest_run i [] best = best
longest_run i (g ∷ gs) (start, len) =
    let l = leading_zeros (g ∷ gs) in
    longest_run (suc i) gs (if ltb 1 l && ltb len l then (i, l) else (start, len))

plain : List ℕ → Text
unfolding join hex_group
plain groups = join (b':' ∷ []) (map hex_group groups)

compressed : List ℕ → Text
unfolding longest_run plain
compressed groups =
    let (start, len) = longest_run 0 groups (0, 0) in
    if len == 0
    then plain groups
    else plain (take start groups) ++ (b':' ∷ b':' ∷ plain (drop (start + len) groups))

with_zone : Text → Text
with_zone [] = []
with_zone (c ∷ s) = b'%' ∷ c ∷ s

-- An IPv4 address inside IPv6 is printed dotted.
v6_string : List ℕ → Text
unfolding compressed dotted
v6_string (a ∷ b ∷ c ∷ d ∷ e ∷ f ∷ g ∷ h ∷ []) =
    if a == 0 && b == 0 && c == 0 && d == 0 && e == 0 && f == 0xffff
    then codes "::ffff:" ++ dotted ((g / 256) ∷ (g % 256) ∷ (h / 256) ∷ (h % 256) ∷ [])
    else compressed (a ∷ b ∷ c ∷ d ∷ e ∷ f ∷ g ∷ h ∷ [])
v6_string groups = compressed groups

unfoldable pub addr_string : Addr → Text
unfolding dotted v6_string with_zone
addr_string invalid = codes "invalid IP"
addr_string (v4 bytes) = dotted bytes
addr_string (v6 groups zone) = v6_string groups ++ with_zone zone

prints :
    (addr_string (v4 (10 ∷ 0 ∷ 0 ∷ 255 ∷ [])) ≡ codes "10.0.0.255")
    × (addr_string (v6 (0 ∷ 0 ∷ 0 ∷ 0 ∷ 0 ∷ 0 ∷ 0 ∷ 1 ∷ []) []) ≡ codes "::1")
    × (addr_string (v6 (0xfe80 ∷ 0 ∷ 0 ∷ 1 ∷ 0 ∷ 0 ∷ 0 ∷ 0xabc ∷ []) (codes "eth0"))
        ≡ codes "fe80:0:0:1::abc%eth0")
    × (addr_string (v6 (1 ∷ 2 ∷ 3 ∷ 4 ∷ 5 ∷ 6 ∷ 0 ∷ 8 ∷ []) []) ≡ codes "1:2:3:4:5:6:0:8")
    × (addr_string (v6 (0 ∷ 0 ∷ 0 ∷ 0 ∷ 0 ∷ 0xffff ∷ 0x102 ∷ 0x304 ∷ []) [])
        ≡ codes "::ffff:1.2.3.4")
unfolding addr_string
prints = (refl, refl, refl, refl, refl)
