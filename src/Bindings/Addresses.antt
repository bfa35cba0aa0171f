-- ===== src/Bindings/Addresses.antt =====
-- internal/forward.go: `expandAddresses` gives each bind address once.
use docker_port_forward.Common.{
  ◌≡◌, refl, Bool, true, false, ◌||◌, List, [], ◌∷◌, ◌++◌, is_nil, any, arith, if◌then◌else◌,
  Bool-cases, inl, inr,
}
use docker_port_forward.Text.{text_eq_comm, Text, text_eq, text_eq_sound, trim_space}
use docker_port_forward.Ports.{localhost}
use docker_port_forward.Bindings.Defs.{
  mem, add_address, expand_one, expand_each, expand_addresses, loopback_v4, loopback_v6,
}

-- No address stands in the list twice.
abbrev pub IsNodup : List Text → Type 0
IsNodup [] = Unit
IsNodup (a ∷ rest) = (mem a rest ≡ false) × IsNodup rest

pub mem-append : (a : Text) (xs ys : List Text) → mem a (xs ++ ys) ≡ mem a xs || mem a ys
mem-append a [] ys = refl
mem-append a (x ∷ xs) ys = ground (arith, mem-append a xs ys)

IsNodup-concat :
    (a : Text) (xs : List Text) → IsNodup xs → mem a xs ≡ false → IsNodup (xs ++ a ∷ [])
IsNodup-concat a [] h n = (refl, tt)
IsNodup-concat a (x ∷ xs) h n = (
  rw (mem-append x xs (a ∷ [])) (ground (arith, text_eq_comm x a)),
  IsNodup-concat a xs h.1 (ground arith),
)

mem-text_eq : (a b : Text) (xs : List Text) → text_eq a b ≡ true → mem b xs ≡ true → mem a xs ≡ true
mem-text_eq a b xs e h = rw (text_eq_sound a b e) h

mem-add_address :
    (a b : Text) (out : List Text) → mem a (add_address out b) ≡ mem a out || text_eq a b
unfolding add_address
mem-add_address a b out = elim (Bool-cases (mem b out)) [
  | inl old ↦ rw old (ground (arith, mem-text_eq a b out))
  | inr new ↦ rw (new, mem-append a out (b ∷ [])) (ground arith)
]

add_address-IsNodup : (a : Text) (out : List Text) → IsNodup out → IsNodup (add_address out a)
unfolding add_address
add_address-IsNodup a out h = elim (Bool-cases (mem a out)) [
  | inl old ↦ rw old h
  | inr new ↦ rw new (IsNodup-concat a out h new)
]

-- The addresses that an entry of the list stands for.
abbrev pub stands_for : Text → Text → Bool
stands_for entry a =
    let t = trim_space entry in
    if is_nil t
    then false
    else if text_eq t localhost
    then text_eq a loopback_v4 || text_eq a loopback_v6
    else text_eq a t

mem-expand_one :
    (a t : Text) (out : List Text)
    → mem a (expand_one out t)
      ≡ mem a out
        || (if is_nil t
            then false
            else if text_eq t localhost
            then text_eq a loopback_v4 || text_eq a loopback_v6
            else text_eq a t)
unfolding expand_one
mem-expand_one a t out = elim (Bool-cases (is_nil t)) [
  | inl e ↦ rw (expand_one, e) (ground arith)
  | inr e ↦ elim (Bool-cases (text_eq t localhost)) [
    | inl l ↦
        rw
          (
            expand_one,
            e,
            l,
            mem-add_address a loopback_v6 (add_address out loopback_v4),
            mem-add_address a loopback_v4 out,
          )
          (ground arith)
    | inr l ↦ rw (expand_one, e, l, mem-add_address a t out) refl
  ]
]

expand_one-IsNodup : (t : Text) (out : List Text) → IsNodup out → IsNodup (expand_one out t)
unfolding expand_one
expand_one-IsNodup t out h = elim (Bool-cases (is_nil t)) [
  | inl e ↦ rw (expand_one, e) h
  | inr e ↦ elim (Bool-cases (text_eq t localhost)) [
    | inl l ↦
        rw (expand_one, e, l)
          (add_address-IsNodup loopback_v6 _ (add_address-IsNodup loopback_v4 out h))
    | inr l ↦ rw (expand_one, e, l) (add_address-IsNodup t out h)
  ]
]

mem-expand_each :
    (a : Text) (addrs out : List Text)
    → mem a (expand_each out addrs) ≡ mem a out || any (λ entry. stands_for entry a) addrs
unfolding expand_each
mem-expand_each a [] out = ground arith
mem-expand_each a (b ∷ addrs) out =
    rw
      (mem-expand_each a addrs (expand_one out (trim_space b)), mem-expand_one a (trim_space b) out)
      (ground arith)

expand_each-IsNodup : (addrs out : List Text) → IsNodup out → IsNodup (expand_each out addrs)
unfolding expand_each
expand_each-IsNodup [] out h = h
expand_each-IsNodup (b ∷ addrs) out h =
    expand_each-IsNodup addrs (expand_one out (trim_space b))
      (expand_one-IsNodup (trim_space b) out h)

abbrev pub or_localhost : List Text → List Text
or_localhost [] = localhost ∷ []
or_localhost (a ∷ addrs) = a ∷ addrs

-- An address is bound exactly when an entry of the list stands for it ("localhost" for 127.0.0.1 and
-- ::1, a blank entry for nothing, no entry at all for "localhost"), and none is bound twice.
pub expand_addresses-mem :
    (addrs : List Text) (a : Text)
    → (mem a (expand_addresses addrs) ≡ any (λ entry. stands_for entry a) (or_localhost addrs))
      × IsNodup (expand_addresses addrs)
unfolding expand_addresses
expand_addresses-mem [] a =
    (mem-expand_each a (localhost ∷ []) [], expand_each-IsNodup (localhost ∷ []) [] tt)
expand_addresses-mem (b ∷ addrs) a =
    (mem-expand_each a (b ∷ addrs) [], expand_each-IsNodup (b ∷ addrs) [] tt)
