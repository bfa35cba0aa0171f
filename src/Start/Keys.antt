-- ===== src/Start/Keys.antt =====
-- internal/forward.go: the ports that the helper listens on.
use docker_port_forward.Ports.{
  Protocol, unset, tcp, other, protocol_eq, udp, PortPair, normalize_protocol,
}
use docker_port_forward.Common.{
  append_assoc, sym, Bool, int_eq, ◌&&◌, ◌++◌, ℤ, refl, ap, if◌then◌else◌, Bool-cases, inl, inr,
  ◌≡◌, ◌∙◌, ◌||◌, any, List, [], ◌∷◌, All, some, arith,
}
use docker_port_forward.Text.{Text, codes, itoa}
use docker_port_forward.Netip.{Prefix}
use docker_port_forward.Options.{socat_range_options}
use docker_port_forward.Ports.RoundTrip.{IsKnown}
use docker_port_forward.Probe.{Listener, listener_eq, add_listener, mem_listener}
use docker_port_forward.Probe.Sorted.{IsListed, IsAscending, IsDistinct, mem-sort, sort-IsAscending}
use docker_port_forward.Probe.Reported.{mem-add_listener, add_listener-IsDistinct}
use docker_port_forward.Start.Command.{
  key_of, distinct_keys, socat_keys, socat_command, socat_commands, shell_command,
}

mem-distinct_keys :
    (l : Listener) (pairs : List PortPair) (seen : List Listener)
    → mem_listener l (distinct_keys seen pairs)
      ≡ mem_listener l seen || any (λ p. listener_eq l (key_of p)) pairs
unfolding distinct_keys
mem-distinct_keys l [] seen = ground arith
mem-distinct_keys l (p ∷ pairs) seen =
    rw
      (
        mem-distinct_keys l pairs (add_listener (some (key_of p)) seen),
        mem-add_listener l (some (key_of p)) seen,
      )
      (ground arith)

distinct_keys-IsDistinct :
    (pairs : List PortPair) (seen : List Listener)
    → IsDistinct seen
    → IsDistinct (distinct_keys seen pairs)
unfolding distinct_keys
distinct_keys-IsDistinct [] seen h = h
distinct_keys-IsDistinct (p ∷ pairs) seen h =
    distinct_keys-IsDistinct pairs _ (add_listener-IsDistinct (some (key_of p)) seen h)

add_listener-All :
    (p : PortPair) (seen : List Listener)
    → IsKnown (normalize_protocol p.protocol)
    → All IsListed seen
    → All IsListed (add_listener (some (key_of p)) seen)
unfolding add_listener
add_listener-All p seen k h = elim (Bool-cases (mem_listener (key_of p) seen)) [
  | inl old ↦ rw (add_listener, old) h
  | inr new ↦ rw (add_listener, new) (k, h)
]

distinct_keys-All :
    (pairs : List PortPair) (seen : List Listener)
    → All (λ p. IsKnown (normalize_protocol p.protocol)) pairs
    → All IsListed seen
    → All IsListed (distinct_keys seen pairs)
unfolding distinct_keys
distinct_keys-All [] seen k h = h
distinct_keys-All (p ∷ pairs) seen k h =
    distinct_keys-All pairs _ k.1 (add_listener-All p seen k.0 h)

-- The pair has the port and the protocol of the listener on the side of the container.
abbrev pub is_on : Listener → PortPair → Bool
is_on l p = int_eq l.port p.remote_port && protocol_eq l.protocol (normalize_protocol p.protocol)

-- One socat in the background: what it listens on, and the same port of the target that it connects
-- to. The options come before the listening address and after it.
abbrev pub socat_text : Text → Text → Text → Text → Text → Text
socat_text options protocol port range_options address =
    codes "socat "
    ++ (options
        ++ (protocol
            ++ (codes "-LISTEN:"
                ++ (port
                    ++ (codes ",fork,reuseaddr"
                        ++ (range_options
                            ++ (b' '
                                ∷ (protocol
                                    ++ (b':' ∷ (address ++ (b':' ∷ (port ++ codes " & "))))))))))))

abbrev pub listens_text : ℤ → Text → Text → Text → Listener → Text
listens_text seconds half_close range_options address l =
    if protocol_eq l.protocol udp
    then socat_text (codes "-T " ++ (itoa seconds ++ (b' ' ∷ []))) (codes "UDP") (itoa l.port)
        range_options address
    else socat_text half_close (codes "TCP") (itoa l.port) range_options address

abbrev pub texts : (Listener → Text) → List Listener → Text
texts f [] = codes "wait"
texts f (l ∷ ls) = f l ++ texts f ls

module _ (seconds : ℤ) (half_close range_options address : Text) where
  one_command :
      (protocol : Protocol) (port : ℤ)
      → socat_command seconds half_close range_options address protocol port
        ≡ listens_text seconds half_close range_options address
            (record { port = port; protocol = protocol })
  unfolding protocol_eq
  one_command udp port =
      ap (λ t. codes "socat -T " ++ t) (sym (append_assoc (itoa seconds) (b' ' ∷ []) _))
  one_command unset port = refl
  one_command tcp port = refl
  one_command (other t) port = refl

  all_commands :
      (ls : List Listener)
      → socat_commands seconds half_close range_options address ls
        ≡ texts (listens_text seconds half_close range_options address) ls
  all_commands [] = refl
  all_commands (l ∷ ls) = rw (one_command l.protocol l.port, all_commands ls) refl

-- The command of the helper starts one socat for each remote port and protocol of the pairs and no
-- other, in strictly ascending order, if the protocols are TCP and UDP. Each listens on the port and
-- connects to the same port of the target's address, under its protocol; the timeout is given to those
-- for UDP, the half-close option to those for TCP, and the source range to all. A trap ends them all,
-- and the command waits for them.
pub shell_command-Listens :
    (seconds : ℤ) (half_close : Text) (source_range : Prefix) (address : Text)
    (pairs : List PortPair)
    → All (λ p. IsKnown (normalize_protocol p.protocol)) pairs
    → (ls : List Listener) × (shell_command seconds half_close source_range address pairs
        ≡ codes "trap 'kill 0' EXIT; "
          ++ texts (listens_text seconds half_close (socat_range_options source_range) address) ls)
      × ((l : Listener) → mem_listener l ls ≡ any (is_on l) pairs)
      × IsAscending ls
unfolding shell_command socat_keys listener_eq
shell_command-Listens seconds half_close source_range address pairs known = (
  socat_keys pairs,
  ap (λ t. codes "trap 'kill 0' EXIT; " ++ t)
      (all_commands seconds half_close (socat_range_options source_range) address
        (socat_keys pairs)),
  (λ l. mem-sort l (distinct_keys [] pairs) ∙ mem-distinct_keys l pairs []),
  sort-IsAscending _ (distinct_keys-All pairs [] known tt) (distinct_keys-IsDistinct pairs [] tt),
)
