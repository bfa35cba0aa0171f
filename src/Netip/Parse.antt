-- ===== src/Netip/Parse.antt =====
-- `netip.ParseAddr`.
use mathlib.Core.Option
use docker_port_forward.Common.{
  not, drop, ℕ, zero, suc, ◌+◌, ◌*◌, ◌-◌, Bool, true, false, ◌&&◌, ◌||◌, Option, none, some, List,
  [], ◌∷◌, ◌++◌, ltb, ◌==◌, if◌then◌else◌, between, length, take, is_nil, ◌≡◌, refl,
}
use docker_port_forward.Text.{Text, codes, split, cut, parse_uint}
use docker_port_forward.Netip.Address.{Addr, v4, v6}

-- one field of a dotted address: no leading zero, at most 255
unfoldable pub octet : Text → Option ℕ
unfolding parse_uint
octet [] = none
octet (c ∷ []) = parse_uint 255 10 (c ∷ [])
octet (c ∷ d ∷ s) = if c == b'0' then none else parse_uint 255 10 (c ∷ d ∷ s)

unfoldable pub octets : List Text → Option (List ℕ)
octets [] = some []
octets (p ∷ ps) = elim (octet p) [
  | none ↦ none
  | some b ↦ elim (octets ps) [ none ↦ none | some bs ↦ some (b ∷ bs) ]
]

-- `parseIPv4Fields`
unfoldable pub ipv4_fields : Text → Option (List ℕ)
unfolding octets split
ipv4_fields s = let parts = split b'.' s in if length parts == 4 then octets parts else none

hex_digit : ℕ → Option ℕ
hex_digit c =
    if between b'0' b'9' c
    then some (c - b'0')
    else if between b'a' b'f' c
    then some (c - b'a' + 10)
    else if between b'A' b'F' c
    then some (c - b'A' + 10)
    else none

-- the longest run of hexadecimal digits: how many, their value, and what follows
hex_run : Text → ℕ → ℕ → ℕ × ℕ × Text
hex_run [] off acc = (off, acc, [])
hex_run (c ∷ s) off acc = elim (hex_digit c) [
  | none ↦ (off, acc, c ∷ s)
  | some d ↦ hex_run s (off + 1) (acc * 16 + d)
]

-- The groups so far, and how many stood before the `::`.
abbrev Groups : Type 0
Groups = List ℕ × Option ℕ

abbrev starts_with_dot : Text → Bool
starts_with_dot [] = false
starts_with_dot (c ∷ s) = c == b'.'

abbrev pair_up : List ℕ → List ℕ
pair_up (a ∷ b ∷ c ∷ d ∷ []) = (a * 256 + b) ∷ (c * 256 + d) ∷ []
pair_up _ = []

abbrev has_ellipsis : Option ℕ → Bool
has_ellipsis none = false
has_ellipsis (some _) = true

-- An IPv4 address may stand for the last two groups.
embedded : List ℕ → Option ℕ → Text → Option Groups
embedded out ellipsis s =
    if (not (has_ellipsis ellipsis) && not (length out == 6)) || ltb 6 (length out)
    then none
    else elim (ipv4_fields s) [ none ↦ none | some bytes ↦ some (out ++ pair_up bytes, ellipsis) ]

-- What follows a group: nothing, or a colon and more; `next` goes on with the loop.
after_group : (List ℕ → Option ℕ → Text → Option Groups) → List ℕ → Option ℕ → Text → Option Groups
after_group next out ellipsis [] = some (out, ellipsis)
after_group next out ellipsis (c ∷ []) = none
after_group next out ellipsis (c ∷ d ∷ s) =
    if not (c == b':')
    then none
    else if not (d == b':')
    then next out ellipsis (d ∷ s)
    else if has_ellipsis ellipsis
    then none
    else if is_nil s
    then some (out, some (length out))
    else next out (some (length out)) s

-- The loop of `parseIPv6`, with the rounds that are left; text left over is an error.
parse_groups : ℕ → List ℕ → Option ℕ → Text → Option Groups
unfolding hex_run hex_digit embedded ipv4_fields after_group
parse_groups zero out ellipsis s = if is_nil s then some (out, ellipsis) else none
parse_groups (suc rounds) out ellipsis s =
    let (off, acc, rest) = hex_run s 0 0 in
    let go = after_group (parse_groups rounds) (out ++ acc ∷ []) ellipsis rest in
    if off == 0 || ltb 4 off
    then none
    else if starts_with_dot rest
    then embedded out ellipsis s
    else go

abbrev zeros : ℕ → List ℕ
zeros zero = []
zeros (suc n) = 0 ∷ zeros n

-- The `::` stands for at least one group of zeros.
expand : Groups → Option (List ℕ)
expand (out, none) = if length out == 8 then some out else none
expand (out, some e) =
    if ltb (length out) 8 then some (take e out ++ (zeros (8 - length out) ++ drop e out)) else none

-- `::` may lead, and may be all.
ipv6_groups : Text → Option (List ℕ)
unfolding parse_groups expand
ipv6_groups (c ∷ d ∷ s) =
    if c == b':' && d == b':'
    then (if is_nil s then some (zeros 8) else Option.bind (parse_groups 8 [] (some 0) s) expand)
    else Option.bind (parse_groups 8 [] none (c ∷ d ∷ s)) expand
ipv6_groups s = Option.bind (parse_groups 8 [] none s) expand

unzoned : Text → Option Addr
unfolding ipv6_groups
unzoned s = Option.map (λ groups. v6 groups []) (ipv6_groups s)

zoned : Text × Text → Option Addr
unfolding ipv6_groups
zoned (s, zone) =
    if is_nil zone then none else Option.map (λ groups. v6 groups zone) (ipv6_groups s)

unfoldable pub parse_ipv6 : Text → Option Addr
unfolding cut unzoned zoned Option.bind
parse_ipv6 s = elim (cut b'%' s) [ none ↦ unzoned s | some parts ↦ zoned parts ]

-- The first of `.`, `:` and `%` decides how the text is read; the whole text is the last argument.
unfoldable pub parse_by : Text → Text → Option Addr
parse_by [] s = none
parse_by (c ∷ r) s =
    if c == b'.'
    then Option.map v4 (ipv4_fields s)
    else if c == b':'
    then parse_ipv6 s
    else if c == b'%'
    then none
    else parse_by r s

unfoldable pub parse_addr : Text → Option Addr
unfolding parse_by parse_ipv6 ipv4_fields octet Option.bind
parse_addr s = parse_by s s

parses :
    (parse_addr (codes "127.0.0.1") ≡ some (v4 (127 ∷ 0 ∷ 0 ∷ 1 ∷ [])))
    × (parse_addr (codes "::1") ≡ some (v6 (0 ∷ 0 ∷ 0 ∷ 0 ∷ 0 ∷ 0 ∷ 0 ∷ 1 ∷ []) []))
    × (parse_addr (codes "fe80::2:a%eth0")
        ≡ some (v6 (0xfe80 ∷ 0 ∷ 0 ∷ 0 ∷ 0 ∷ 0 ∷ 2 ∷ 10 ∷ []) (codes "eth0")))
    × (parse_addr (codes "::ffff:1.2.3.4")
        ≡ some (v6 (0 ∷ 0 ∷ 0 ∷ 0 ∷ 0 ∷ 0xffff ∷ 0x102 ∷ 0x304 ∷ []) []))
unfolding parse_addr
parses = (refl, refl, refl, refl)

refuses :
    (parse_addr (codes "127.0.0.01") ≡ none)
    × (parse_addr (codes "1.2.3") ≡ none)
    × (parse_addr (codes "1.2.3.256") ≡ none)
    × (parse_addr (codes "1::2::3") ≡ none)
    × (parse_addr (codes "1:2:3:4:5:6:7") ≡ none)
    × (parse_addr (codes "my-container") ≡ none)
unfolding parse_addr
refuses = (refl, refl, refl, refl, refl, refl)
