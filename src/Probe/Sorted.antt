-- ===== src/Probe/Sorted.antt =====
-- internal/probe.go: the detected listeners are in strictly ascending order.
use docker_port_forward.Common.{
  ◌∙◌, ◌≡◌, refl, true, false, List, [], ◌∷◌, ℤ, All, arith, Bool-cases, inl, inr,
}
use docker_port_forward.Ports.{Protocol, unset, tcp, udp, other}
use docker_port_forward.Ports.RoundTrip.{IsKnown}
use docker_port_forward.Probe.Listeners.{
  Listener, listener_eq, listener_less, mem_listener, insert_listener, sort_listeners,
}

order_total :
    (x y : ℤ) (s t : Protocol)
    → IsKnown s
    → IsKnown t
    → listener_eq (record { port = x; protocol = s }) (record { port = y; protocol = t }) ≡ false
    → listener_less (record { port = x; protocol = s }) (record { port = y; protocol = t }) ≡ false
    → listener_less (record { port = y; protocol = t }) (record { port = x; protocol = s }) ≡ true
unfolding listener_eq listener_less
order_total x y tcp tcp ks kt ne h = ground arith
order_total x y tcp udp ks kt ne h = ground arith
order_total x y udp tcp ks kt ne h = ground arith
order_total x y udp udp ks kt ne h = ground arith
order_total x y unset t ks kt ne h = elim ks [ ]
order_total x y (other o) t ks kt ne h = elim ks [ ]
order_total x y tcp unset ks kt ne h = elim kt [ ]
order_total x y tcp (other o) ks kt ne h = elim kt [ ]
order_total x y udp unset ks kt ne h = elim kt [ ]
order_total x y udp (other o) ks kt ne h = elim kt [ ]

order_trans :
    (x y z : ℤ) (s t u : Protocol)
    → IsKnown s
    → IsKnown t
    → IsKnown u
    → listener_less (record { port = x; protocol = s }) (record { port = y; protocol = t }) ≡ true
    → listener_less (record { port = y; protocol = t }) (record { port = z; protocol = u }) ≡ true
    → listener_less (record { port = x; protocol = s }) (record { port = z; protocol = u }) ≡ true
unfolding listener_less
order_trans x y z tcp tcp tcp ks kt ku h k = ground arith
order_trans x y z tcp tcp udp ks kt ku h k = refl
order_trans x y z tcp udp udp ks kt ku h k = refl
order_trans x y z udp udp udp ks kt ku h k = ground arith
order_trans x y z tcp udp tcp ks kt ku h k = cc
order_trans x y z udp tcp u ks kt ku h k = cc
order_trans x y z udp udp tcp ks kt ku h k = cc
order_trans x y z unset t u ks kt ku h k = elim ks [ ]
order_trans x y z (other o) t u ks kt ku h k = elim ks [ ]
order_trans x y z tcp unset u ks kt ku h k = elim kt [ ]
order_trans x y z tcp (other o) u ks kt ku h k = elim kt [ ]
order_trans x y z udp unset u ks kt ku h k = elim kt [ ]
order_trans x y z udp (other o) u ks kt ku h k = elim kt [ ]
order_trans x y z tcp tcp unset ks kt ku h k = elim ku [ ]
order_trans x y z tcp tcp (other o) ks kt ku h k = elim ku [ ]
order_trans x y z tcp udp unset ks kt ku h k = elim ku [ ]
order_trans x y z tcp udp (other o) ks kt ku h k = elim ku [ ]
order_trans x y z udp udp unset ks kt ku h k = elim ku [ ]
order_trans x y z udp udp (other o) ks kt ku h k = elim ku [ ]

abbrev pub IsListed : Listener → Type 0
IsListed l = IsKnown l.protocol

-- Each listener comes before all that follow it.
abbrev pub IsAscending : List Listener → Type 0
IsAscending [] = Unit
IsAscending (l ∷ rest) = All (λ m. listener_less l m ≡ true) rest × IsAscending rest

below_all :
    (a b : Listener) (rest : List Listener)
    → IsListed a
    → IsListed b
    → All IsListed rest
    → listener_less a b ≡ true
    → All (λ m. listener_less b m ≡ true) rest
    → All (λ m. listener_less a m ≡ true) rest
below_all a b [] ka kb kr lt h = tt
below_all a b (c ∷ rest) ka kb kr lt h = (
  order_trans a.port b.port c.port a.protocol b.protocol c.protocol ka kb kr.0 lt h.0,
  below_all a b rest ka kb kr.1 lt h.1,
)

insert-All :
    (P : Listener → Type 0) (a : Listener) (ls : List Listener)
    → P a
    → All P ls
    → All P (insert_listener a ls)
unfolding insert_listener
insert-All P a [] pa h = (pa, tt)
insert-All P a (b ∷ ls) pa h = elim (Bool-cases (listener_less a b)) [
  | inl lt ↦ rw lt (pa, h)
  | inr ge ↦ rw ge (h.0, insert-All P a ls pa h.1)
]

insert-IsAscending :
    (a : Listener) (ls : List Listener)
    → IsListed a
    → All IsListed ls
    → mem_listener a ls ≡ false
    → IsAscending ls
    → IsAscending (insert_listener a ls)
unfolding insert_listener
insert-IsAscending a [] ka kl fresh h = (tt, tt)
insert-IsAscending a (b ∷ ls) ka kl fresh h = elim (Bool-cases (listener_less a b)) [
  | inl lt ↦ rw lt ((lt, below_all a b ls ka kl.0 kl.1 lt h.0), h)
  | inr ge ↦ rw ge (
    insert-All _ a ls (order_total a.port b.port a.protocol b.protocol ka kl.0 (ground arith) ge)
        h.0,
    insert-IsAscending a ls ka kl.1 (ground arith) h.1,
  )
]

-- No key is held twice.
abbrev pub IsDistinct : List Listener → Type 0
IsDistinct [] = Unit
IsDistinct (l ∷ rest) = (mem_listener l rest ≡ false) × IsDistinct rest

mem-insert :
    (l a : Listener) (ls : List Listener)
    → mem_listener l (insert_listener a ls) ≡ mem_listener l (a ∷ ls)
unfolding insert_listener
mem-insert l a [] = refl
mem-insert l a (b ∷ ls) = elim (Bool-cases (listener_less a b)) [
  | inl lt ↦ rw lt refl
  | inr ge ↦ rw (ge, mem-insert l a ls) (ground arith)
]

pub mem-sort :
    (l : Listener) (ls : List Listener) → mem_listener l (sort_listeners ls) ≡ mem_listener l ls
unfolding sort_listeners
mem-sort l [] = refl
mem-sort l (a ∷ ls) = rw (mem-insert l a (sort_listeners ls), mem-sort l ls) refl

pub sort-All : (P : Listener → Type 0) (ls : List Listener) → All P ls → All P (sort_listeners ls)
unfolding sort_listeners
sort-All P [] h = tt
sort-All P (a ∷ ls) h = insert-All P a (sort_listeners ls) h.0 (sort-All P ls h.1)

pub sort-IsAscending :
    (ls : List Listener) → All IsListed ls → IsDistinct ls → IsAscending (sort_listeners ls)
unfolding sort_listeners
sort-IsAscending [] k d = tt
sort-IsAscending (a ∷ ls) k d =
    insert-IsAscending a (sort_listeners ls) k.0 (sort-All IsListed ls k.1) (mem-sort a ls ∙ d.0)
      (sort-IsAscending ls k.1 d.1)
