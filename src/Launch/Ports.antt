-- ===== src/Launch/Ports.antt =====
-- internal/forward.go: `resolveAutoPorts`, `preflightHostPorts` and what they call.
use docker_port_forward.Common.{
  Bool, ◌||◌, List, [], ◌∷◌, ◌++◌, ℤ, pos, int_eq, Result, ok, err, if◌then◌else◌,
}
use docker_port_forward.Text.{Text, codes, text_eq, contains, to_lower, itoa}
use docker_port_forward.Ports.{
  PortPair, Protocol, tcp, udp, normalize_protocol, protocol_text, format_address, all_interfaces,
}
use docker_port_forward.Bindings.{pair_addresses, loopback_v4}
use docker_port_forward.Docker.{
  M, pure, ◌>>=◌, ◌>>◌, unsupported_protocol, allocating_port, port_not_available, Error,
}
use docker_port_forward.Helpers.{normalized}
use docker_port_forward.Launch.Machine.{Host}

unfoldable pub listen_host : Text → Text
listen_host addr = if text_eq addr all_interfaces then [] else addr

-- `net.JoinHostPort`
unfoldable pub join_host_port : Text → Text → Text
join_host_port host port = format_address host ++ b':' ∷ port

-- the message of a listen that failed
unfoldable pub is_ipv6_unavailable : Text → Bool
is_ipv6_unavailable message =
    contains (to_lower message) (codes "address family not supported")
    || contains (to_lower message) (codes "cannot assign requested address")

abbrev pub first_or_loopback : List Text → Text
first_or_loopback [] = loopback_v4
first_or_loopback (a ∷ _) = a

unfoldable pub auto_bind : List Text → PortPair → Text
auto_bind defaults p =
    join_host_port (listen_host (first_or_loopback (pair_addresses p defaults))) (b'0' ∷ [])

unfoldable pub host_bind : PortPair → Text → Text
host_bind p addr = join_host_port (listen_host addr) (itoa p.local_port)

abbrev pub allocated : Text → Result Text ℤ → Result Error ℤ
allocated network (ok port) = ok port
allocated network (err message) = err (allocating_port network message)

abbrev pub tolerated : Text → Text → Result Text ℤ → Result Error (Unit {0})
tolerated bind proto (ok _) = ok tt
tolerated bind proto (err message) =
    if is_ipv6_unavailable message then ok tt else err (port_not_available bind proto message)

module _ (h : Host) where
  abbrev pub allocate : Protocol → Text → M h.client.World ℤ
  allocate tcp bind w = let (r, w') = h.listen_tcp bind w in (allocated (codes "tcp") r, w')
  allocate udp bind w = let (r, w') = h.listen_udp bind w in (allocated (codes "udp") r, w')
  allocate proto bind w = (err (unsupported_protocol (protocol_text proto)), w)

  abbrev pub with_port : PortPair → M h.client.World ℤ → M h.client.World PortPair
  with_port p m = do
    port ← m
    pure (record p { local_port = port; protocol = normalize_protocol p.protocol })

  unfoldable pub resolve_port : List Text → PortPair → M h.client.World PortPair
  resolve_port defaults p =
      if int_eq p.local_port (pos 0)
      then with_port p (allocate (normalize_protocol p.protocol) (auto_bind defaults p))
      else pure (normalized p)

  unfoldable pub resolve_auto_ports : List Text → List PortPair → M h.client.World (List PortPair)
  resolve_auto_ports defaults [] = pure []
  resolve_auto_ports defaults (p ∷ pairs) = do
    q ← resolve_port defaults p
    rest ← resolve_auto_ports defaults pairs
    pure (q ∷ rest)

  abbrev pub try_bind : Protocol → Text → M h.client.World (Unit {0})
  try_bind tcp bind w = let (r, w') = h.listen_tcp bind w in (tolerated bind (codes "tcp") r, w')
  try_bind udp bind w = let (r, w') = h.listen_udp bind w in (tolerated bind (codes "udp") r, w')
  try_bind proto bind w = (err (unsupported_protocol (protocol_text proto)), w)

  unfoldable pub preflight_pair : PortPair → List Text → M h.client.World (Unit {0})
  preflight_pair p [] = pure tt
  preflight_pair p (addr ∷ addrs) =
      try_bind (normalize_protocol p.protocol) (host_bind p addr) >> preflight_pair p addrs

  unfoldable pub preflight_host_ports : List Text → List PortPair → M h.client.World (Unit {0})
  preflight_host_ports defaults [] = pure tt
  preflight_host_ports defaults (p ∷ pairs) =
      preflight_pair p (pair_addresses p defaults) >> preflight_host_ports defaults pairs
