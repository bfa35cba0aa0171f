-- ===== src/Launch/PublishedTests.antt =====
-- The bindings that a helper publishes.
use docker_port_forward.Netip.{no_prefix}
use docker_port_forward.Text.{codes}
use docker_port_forward.Ports.{PortPair, tcp, udp, localhost}
use docker_port_forward.Bindings.{concat_map}
use docker_port_forward.Docker.{Inspect}
use docker_port_forward.Common.{◌≡◌, some, [], ◌∷◌, pos, true}
use docker_port_forward.Launch.Start.{ForwardInput, helper_spec, plan_for}
use docker_port_forward.Launch.Config.{HelperSpec, build_helper_container_config}
use docker_port_forward.Launch.Published.{bindings_at, own_bindings, remote_text, published_eq}
use docker_port_forward.Launch.Example.{host, up}

abbrev web : PortPair
web = record { address = []; local_port = pos 8080; remote_port = pos 80; protocol = tcp }

abbrev dns : PortPair
dns = record { address = codes "*"; local_port = pos 53; remote_port = pos 53; protocol = udp }

abbrev input : ForwardInput
input = record {
  target = record { container_id = codes "app"; container_name = codes "web" };
  pairs = web ∷ dns ∷ [];
  addresses = localhost ∷ [];
  helper_image = [];
  pull_policy = [];
  running_timeout = pos 0;
  detach = true;
  restart_policy = record { name = []; max_retries = pos 0 };
  log_config = record { driver = []; config = [] };
  name = codes "pf";
  extra_labels = [];
  skip_preflight = true;
  udp_timeout = pos 0;
  tcp_half_close_timeout = pos 0;
  source_range = no_prefix;
  network = codes "net";
}

abbrev target : Inspect
target = up true (codes "app") (codes "/web")

abbrev spec : HelperSpec
spec =
    helper_spec host 1 input (plan_for (web ∷ dns ∷ []) target (codes "net", codes "web") 0)
      (codes "pf") (codes "0a")

published_eq_example :
    bindings_at (codes "53/udp") (build_helper_container_config (λ t. some t) spec).bindings
    ≡ concat_map
        (λ p. own_bindings (codes "53/udp") (localhost ∷ []) p (some (remote_text p)))
        (web ∷ dns ∷ [])
published_eq_example = published_eq (λ t. some t) spec (codes "53/udp")
