-- ===== src/Launch/Resolved.antt =====
-- internal/forward.go: what `resolveAutoPorts` makes of the pairs.
use docker_port_forward.Common.{
  if◌then◌else◌, ◌≡◌, refl, subst, false, List, [], ◌∷◌, ℤ, pos, int_eq, Result, ok, err, arith,
  Bool-cases, inl, inr,
}
use docker_port_forward.Text.{Text}
use docker_port_forward.Ports.{PortPair, normalize_protocol, tcp, udp, unset, other, Protocol}
use docker_port_forward.Docker.{◌>>=◌, pure}
use docker_port_forward.Launch.Machine.{Host}
use docker_port_forward.Launch.Post.{IfDone, then-IfDone}
use docker_port_forward.Launch.Ports.{
  allocate, allocated, resolve_port, resolve_auto_ports, auto_bind,
}

-- The port that is listened on is never zero.
pub record Assigns (h : Host) : Type 0 where
  pub tcp_port :
      (bind : Text) (w : h.client.World) (port : ℤ)
      → (h.listen_tcp bind w).0 ≡ ok port
      → int_eq port (pos 0) ≡ false
  pub udp_port :
      (bind : Text) (w : h.client.World) (port : ℤ)
      → (h.listen_udp bind w).0 ≡ ok port
      → int_eq port (pos 0) ≡ false

-- `q` is `p` with a local port, its own if it has one, and with its protocol written out.
pub record IsResolved (p q : PortPair) : Type 0 where
  pub same_address : q.address ≡ p.address
  pub same_remote : q.remote_port ≡ p.remote_port
  pub protocol_named : q.protocol ≡ normalize_protocol p.protocol
  pub has_local : int_eq q.local_port (pos 0) ≡ false
  pub keeps_local : int_eq p.local_port (pos 0) ≡ false → q.local_port ≡ p.local_port

abbrev pub AreResolved : List PortPair → List PortPair → Type 0
AreResolved [] [] = Unit
AreResolved [] (_ ∷ _) = ⊥
AreResolved (_ ∷ _) [] = ⊥
AreResolved (p ∷ pairs) (q ∷ out) = IsResolved p q × AreResolved pairs out

module _ (h : Host) (assigns : Assigns h) where
  abbrev NonZero : ℤ → h.client.World → Type 0
  NonZero port w = int_eq port (pos 0) ≡ false

  allocated-IfDone :
      (network : Text) (r : Result Text ℤ) (w : h.client.World)
      → ((port : ℤ) → r ≡ ok port → int_eq port (pos 0) ≡ false)
      → IfDone NonZero (allocated network r, w)
  allocated-IfDone network (ok port) w nonzero = nonzero port refl
  allocated-IfDone network (err _) w nonzero = tt

  allocate-IfDone :
      (proto : Protocol) (bind : Text) (w : h.client.World)
      → IfDone NonZero (allocate h proto bind w)
  allocate-IfDone tcp bind w = allocated-IfDone _ _ _ (assigns.tcp_port bind w)
  allocate-IfDone udp bind w = allocated-IfDone _ _ _ (assigns.udp_port bind w)
  allocate-IfDone unset bind w = tt
  allocate-IfDone (other t) bind w = tt

  resolve_port-IfDone :
      (defaults : List Text) (p : PortPair) (w : h.client.World)
      → IfDone (λ q _. IsResolved p q) (resolve_port h defaults p w)
  unfolding resolve_port
  resolve_port-IfDone defaults p w = elim (Bool-cases (int_eq p.local_port (pos 0))) [
    | inl auto ↦
        rw (resolve_port, auto, if◌then◌else◌)
          (then-IfDone NonZero (λ q _. IsResolved p q)
            (λ port.
              pure (record p { local_port = port; protocol = normalize_protocol p.protocol }))
            (allocate h (normalize_protocol p.protocol) (auto_bind defaults p)) w
            (allocate-IfDone (normalize_protocol p.protocol) (auto_bind defaults p) w)
            λ port w' nonzero. record {
              same_address = refl;
              same_remote = refl;
              protocol_named = refl;
              has_local = nonzero;
              keeps_local = λ given. absurd (ground arith);
            })
    | inr given ↦
        rw (resolve_port, given, if◌then◌else◌)
          (record {
            same_address = refl;
            same_remote = refl;
            protocol_named = refl;
            has_local = given;
            keeps_local = λ _. refl;
          })
  ]

  pub resolved_pairs :
      (defaults : List Text) (pairs : List PortPair) (w : h.client.World)
      → IfDone (λ out _. AreResolved pairs out) (resolve_auto_ports h defaults pairs w)
  unfolding resolve_auto_ports
  resolved_pairs defaults [] w = tt
  resolved_pairs defaults (p ∷ pairs) w =
      then-IfDone (λ q _. IsResolved p q) (λ out _. AreResolved (p ∷ pairs) out)
        (λ q. resolve_auto_ports h defaults pairs >>= λ rest. pure (q ∷ rest))
        (resolve_port h defaults p) w (resolve_port-IfDone defaults p w)
        λ q w' first.
          then-IfDone (λ out _. AreResolved pairs out) (λ out _. AreResolved (p ∷ pairs) out)
            (λ rest. pure (q ∷ rest)) (resolve_auto_ports h defaults pairs) w'
            (resolved_pairs defaults pairs w') λ rest w'' others. (first, others)

-- When `resolveAutoPorts` succeeds its pairs are those it was given, in their order, each with the same
-- address and remote port, its protocol written out, and a local port that is not zero: its own if it
-- has one. The ports that the host listens on are not zero.
pub resolve_auto_ports-AreResolved :
    (h : Host) (assigns : Assigns h) (defaults : List Text) (pairs out : List PortPair)
    (w w' : h.client.World)
    → resolve_auto_ports h defaults pairs w ≡ (ok out, w')
    → AreResolved pairs out
resolve_auto_ports-AreResolved h assigns defaults pairs out w w' e =
    subst (IfDone (λ out _. AreResolved pairs out)) e (resolved_pairs h assigns defaults pairs w)
