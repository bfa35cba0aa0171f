-- ===== src/Start/Command.antt =====
-- internal/forward.go: the command of the helper that `buildHelperContainerConfig` builds.
use docker_port_forward.Common.{List, [], ◌∷◌, ◌++◌, some, ℤ}
use docker_port_forward.Text.{Text, codes, itoa}
use docker_port_forward.Netip.{Prefix}
use docker_port_forward.Ports.{PortPair, Protocol, udp, normalize_protocol}
use docker_port_forward.Probe.{Listener, add_listener, sort_listeners}
use docker_port_forward.Options.{socat_range_options}

-- `socatKey` has the fields and the order of a `Listener`.
abbrev pub key_of : PortPair → Listener
key_of p = record { port = p.remote_port; protocol = normalize_protocol p.protocol }

-- The map `seen`, and the keys in it.
unfoldable pub distinct_keys : List Listener → List PortPair → List Listener
distinct_keys seen [] = seen
distinct_keys seen (p ∷ pairs) = distinct_keys (add_listener (some (key_of p)) seen) pairs

unfoldable pub socat_keys : List PortPair → List Listener
socat_keys pairs = sort_listeners (distinct_keys [] pairs)

-- The seconds of the UDP timeout, the option for half-closed connections, printed with a space
-- behind it if there is one, the options for the source range, and the address to dial.
module _ (udp_seconds : ℤ) (half_close range_options address : Text) where
  abbrev pub socat_command : Protocol → ℤ → Text
  socat_command udp remote =
      codes "socat -T "
      ++ (itoa udp_seconds
          ++ (codes " UDP-LISTEN:"
              ++ (itoa remote
                  ++ (codes ",fork,reuseaddr"
                      ++ (range_options
                          ++ (codes " UDP:"
                              ++ (address ++ (codes ":" ++ (itoa remote ++ codes " & ")))))))))
  socat_command _ remote =
      codes "socat "
      ++ (half_close
          ++ (codes "TCP-LISTEN:"
              ++ (itoa remote
                  ++ (codes ",fork,reuseaddr"
                      ++ (range_options
                          ++ (codes " TCP:"
                              ++ (address ++ (codes ":" ++ (itoa remote ++ codes " & ")))))))))

  abbrev pub socat_commands : List Listener → Text
  socat_commands [] = codes "wait"
  socat_commands (k ∷ keys) = socat_command k.protocol k.port ++ socat_commands keys

unfoldable pub shell_command : ℤ → Text → Prefix → Text → List PortPair → Text
shell_command udp_seconds half_close source_range address pairs =
    codes "trap 'kill 0' EXIT; "
    ++ socat_commands udp_seconds half_close (socat_range_options source_range) address
        (socat_keys pairs)
