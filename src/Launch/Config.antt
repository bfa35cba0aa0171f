-- ===== src/Launch/Config.antt =====
-- internal/forward.go: `buildHelperContainerConfig`, from the labels and the command that are modelled
-- in Start.
use docker_port_forward.Common.{
  ℕ, zero, suc, ◌/◌, ◌%◌, ◌+◌, ◌^◌, ◌==◌, Bool, not, ℤ, pos, negsuc, Option, none, some, List, [],
  ◌∷◌, ◌++◌, if◌then◌else◌,
}
use docker_port_forward.Text.{Text, codes, text_eq, format_nat, itoa}
use docker_port_forward.Netip.{parse_addr}
use docker_port_forward.Ports.{PortPair, is_some}
use docker_port_forward.Bindings.{pair_addresses, mem}
use docker_port_forward.Options.{RestartPolicy}
use docker_port_forward.Start.{HelperConfig, helper_labels, shell_command, port_name}
use docker_port_forward.Launch.Machine.{ContainerConfig, PortBinding, LogConfig}

-- `time.Second`
abbrev pub second : ℕ
second = 1_000_000_000

-- The fields of `helperConfig`; durations are in nanoseconds.
pub record HelperSpec : Type 0 where
  pub labelled : HelperConfig
  pub image : Text
  pub detach : Bool
  pub restart_policy : RestartPolicy
  pub log_config : LogConfig
  pub udp_timeout : ℤ
  pub tcp_half_close_timeout : ℤ

-- The seconds of the UDP timeout, 60 when they are not above zero. The source counts them in a float,
-- which rounds up the last fraction of a second of some timeouts above 2^24 seconds: this is for
-- whole seconds, and for timeouts below that.
unfoldable pub udp_seconds : ℤ → ℤ
udp_seconds (pos n) = if n / second == 0 then pos 60 else pos (n / second)
udp_seconds (negsuc n) = pos 60

-- The first `k` digits of a fraction that is given in units of its last one, without zeros at its end.
unfoldable pub fraction_digits : ℕ → ℕ → Text
fraction_digits zero n = []
fraction_digits (suc k) n =
    let rest = fraction_digits k n in
    if n % 10 ^ suc k == 0 then [] else (b'0' + n / 10 ^ k % 10) ∷ rest

-- `strconv.FormatFloat(d.Seconds(), 'f', -1, 64)`, where a float holds the seconds: for whole seconds,
-- and for durations below a million seconds.
unfoldable pub format_seconds : ℕ → Text
format_seconds n =
    format_nat (n / second)
    ++ (if n % second == 0 then [] else b'.' ∷ fraction_digits 9 (n % second))

unfoldable pub half_close : ℤ → Text
half_close (pos n) = if n == 0 then [] else codes "-t " ++ (format_seconds n ++ (b' ' ∷ []))
half_close (negsuc n) = []

-- `append` at a key of the map of bindings
unfoldable pub add_binding :
    Text → PortBinding → List (Text × List PortBinding) → List (Text × List PortBinding)
add_binding port b [] = (port, b ∷ []) ∷ []
add_binding port b ((key, list) ∷ rest) =
    let further = add_binding port b rest in
    if text_eq port key then (key, list ++ b ∷ []) ∷ rest else (key, list) ∷ further

abbrev pub binding_on : PortPair → Text → PortBinding
binding_on p addr = record { host_ip = parse_addr addr; host_port = itoa p.local_port }

abbrev pub add_bindings :
    Text → PortPair → List Text → List (Text × List PortBinding) → List (Text × List PortBinding)
add_bindings port p [] out = out
add_bindings port p (addr ∷ addrs) out =
    add_bindings port p addrs (add_binding port (binding_on p addr) out)

abbrev pub bind_pair :
    List Text
    → PortPair
    → Option Text
    → List (Text × List PortBinding)
    → List (Text × List PortBinding)
bind_pair defaults p none out = out
bind_pair defaults p (some port) out = add_bindings port p (pair_addresses p defaults) out

abbrev pub expose : Option Text → List Text → List Text
expose none out = out
expose (some port) out = if mem port out then out else out ++ port ∷ []

module _ (parse_port : Text → Option Text) where
  unfoldable pub port_bindings :
      List Text → List (Text × List PortBinding) → List PortPair → List (Text × List PortBinding)
  port_bindings defaults out [] = out
  port_bindings defaults out (p ∷ pairs) =
      port_bindings defaults (bind_pair defaults p (parse_port (port_name p)) out) pairs

  unfoldable pub exposed_ports : List Text → List PortPair → List Text
  exposed_ports out [] = out
  exposed_ports out (p ∷ pairs) = exposed_ports (expose (parse_port (port_name p)) out) pairs

  abbrev pub no_restart : RestartPolicy
  no_restart = record { name = codes "no"; max_retries = pos 0 }

  unfoldable pub build_helper_container_config : HelperSpec → ContainerConfig
  build_helper_container_config spec =
      let h = spec.labelled in
      record {
        image = spec.image;
        command =
            shell_command (udp_seconds spec.udp_timeout) (half_close spec.tcp_half_close_timeout)
              h.source_range h.target_address h.pairs;
        labels = helper_labels (λ t. is_some (parse_port t)) h;
        exposed = exposed_ports [] h.pairs;
        network_mode = h.target_network;
        bindings = port_bindings h.addresses [] h.pairs;
        auto_remove = not spec.detach;
        restart_policy = if spec.detach then spec.restart_policy else no_restart;
        log_config = spec.log_config;
      }
