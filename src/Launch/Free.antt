-- ===== src/Launch/Free.antt =====
-- internal/forward.go: when `preflightHostPorts` finds the ports free.
use docker_port_forward.Docker.{port_not_available, ◌>>=◌, Error, ◌>>◌}
use docker_port_forward.Common.{
  refl, [], ◌⊎◌, ap, arith, Bool-cases, ◌∷◌, inr, ◌↔◌, inl, ◌≡◌, Bool, true, List, ℤ, Result, ok,
  err, All,
}
use docker_port_forward.Ports.{unset, other, PortPair, normalize_protocol, tcp, udp, Protocol}
use docker_port_forward.Text.{codes, Text}
use docker_port_forward.Launch.Ports.{
  preflight_pair, preflight_host_ports, tolerated, try_bind, is_ipv6_unavailable, host_bind,
}
use docker_port_forward.Bindings.{pair_addresses}
use docker_port_forward.Launch.Machine.{Host}

-- A host where listening, and closing again, changes nothing.
pub record Listens (h : Host) : Type 0 where
  pub tries_tcp : Text → h.client.World → Result Text ℤ
  pub tries_udp : Text → h.client.World → Result Text ℤ
  pub tcp_same : (bind : Text) (w : h.client.World) → h.listen_tcp bind w ≡ (tries_tcp bind w, w)
  pub udp_same : (bind : Text) (w : h.client.World) → h.listen_udp bind w ≡ (tries_udp bind w, w)

-- The listen succeeds, or it fails for want of IPv6.
abbrev pub passes : Result Text ℤ → Bool
passes (ok _) = true
passes (err message) = is_ipv6_unavailable message

module _ (h : Host) (listens : Listens h) where
  abbrev pub IsFree : Protocol → Text → h.client.World → Type 0
  IsFree tcp bind w = passes (listens.tries_tcp bind w) ≡ true
  IsFree udp bind w = passes (listens.tries_udp bind w) ≡ true
  IsFree _ bind w = ⊥

  -- every address that the pair is bound on
  abbrev pub IsPairFree : List Text → h.client.World → PortPair → Type 0
  IsPairFree defaults w p =
      All (λ addr. IsFree (normalize_protocol p.protocol) (host_bind p addr) w)
        (pair_addresses p defaults)

  -- A step that changes nothing, and succeeds when `P` holds and only then.
  abbrev Decides :
      Type 0 → (h.client.World → Result Error (Unit {0}) × h.client.World) → h.client.World → Type 0
  Decides P m w = (P × (m w ≡ (ok tt, w))) ⊎ ((P → ⊥) × (e : Error) × (m w ≡ (err e, w)))

  Decides-then :
      {P Q : Type 0} (m k : h.client.World → Result Error (Unit {0}) × h.client.World)
      (w : h.client.World)
      → Decides P m w
      → Decides Q k w
      → Decides (P × Q) (m >> k) w
  Decides-then m k w (inl (p, em)) (inl (q, ek)) = inl ((p, q), rw (◌>>◌, ◌>>=◌, em, em, ek) refl)
  Decides-then m k w (inl (p, em)) (inr (nq, e, ek)) =
      inr ((λ both. nq both.1), e, rw (◌>>◌, ◌>>=◌, em, em, ek) refl)
  Decides-then m k w (inr (np, e, em)) d =
      inr ((λ both. np both.0), e, rw (◌>>◌, ◌>>=◌, em, em) refl)

  tolerated-Decides :
      (bind proto : Text) (r : Result Text ℤ) (w : h.client.World)
      → Decides (passes r ≡ true) (λ w. (tolerated bind proto r, w)) w
  tolerated-Decides bind proto (ok _) w = inl (refl, refl)
  tolerated-Decides bind proto (err message) w = elim (Bool-cases (is_ipv6_unavailable message)) [
    | inl t ↦ inl (t, rw t refl)
    | inr f ↦ inr ((λ p. absurd (ground arith)), port_not_available bind proto message, rw f refl)
  ]

  try_bind-Decides :
      (proto : Protocol) (bind : Text) (w : h.client.World)
      → Decides (IsFree proto bind w) (try_bind h proto bind) w
  try_bind-Decides tcp bind w =
      rw listens.tcp_same (tolerated-Decides bind (codes "tcp") (listens.tries_tcp bind w) w)
  try_bind-Decides udp bind w =
      rw listens.udp_same (tolerated-Decides bind (codes "udp") (listens.tries_udp bind w) w)
  try_bind-Decides unset bind w = inr ((λ p. p), _, refl)
  try_bind-Decides (other t) bind w = inr ((λ p. p), _, refl)

  preflight_pair-Decides :
      (p : PortPair) (addrs : List Text) (w : h.client.World)
      → Decides
          (All (λ addr. IsFree (normalize_protocol p.protocol) (host_bind p addr) w) addrs)
          (preflight_pair h p addrs)
          w
  unfolding preflight_pair
  preflight_pair-Decides p [] w = inl (tt, refl)
  preflight_pair-Decides p (addr ∷ addrs) w =
      Decides-then (try_bind h (normalize_protocol p.protocol) (host_bind p addr))
        (preflight_pair h p addrs) w
        (try_bind-Decides (normalize_protocol p.protocol) (host_bind p addr) w)
        (preflight_pair-Decides p addrs w)

  preflight-Decides :
      (defaults : List Text) (pairs : List PortPair) (w : h.client.World)
      → Decides (All (IsPairFree defaults w) pairs) (preflight_host_ports h defaults pairs) w
  unfolding preflight_host_ports
  preflight-Decides defaults [] w = inl (tt, refl)
  preflight-Decides defaults (p ∷ pairs) w =
      Decides-then (preflight_pair h p (pair_addresses p defaults))
        (preflight_host_ports h defaults pairs) w
        (preflight_pair-Decides p (pair_addresses p defaults) w)
        (preflight-Decides defaults pairs w)

  decided :
      {P : Type 0} (m : h.client.World → Result Error (Unit {0}) × h.client.World)
      (w : h.client.World)
      → Decides P m w
      → ((m w).0 ≡ ok tt ↔ P) × ((m w).1 ≡ w)
  decided m w (inl (p, e)) = (((λ _. p), λ _. ap (λ t. t.0) e), ap (λ t. t.1) e)
  decided m w (inr (np, f, e)) =
      (((λ good. let bad = ap (λ t. t.0) e in cc), λ p. absurd (np p)), ap (λ t. t.1) e)

pub preflight_host_ports_iff :
    (h : Host) (listens : Listens h) (defaults : List Text) (pairs : List PortPair)
    (w : h.client.World)
    → ((preflight_host_ports h defaults pairs w).0 ≡ ok tt
        ↔ All (IsPairFree h listens defaults w) pairs)
      × ((preflight_host_ports h defaults pairs w).1 ≡ w)
preflight_host_ports_iff h listens defaults pairs w =
    decided h listens (preflight_host_ports h defaults pairs) w
      (preflight-Decides h listens defaults pairs w)
