-- ===== src/Entry/Forward.antt =====
-- portforward/forward.go: `Forward`. What is only logged is left out, and so is closing the client.
use docker_port_forward.Common.{ℕ, Bool, ℤ, Option, none, some, List, [], ◌∷◌, Result, ok, err, map}
use docker_port_forward.Text.{Text}
use docker_port_forward.Ports.{PortPair, normalize_protocol, protocol_text}
use docker_port_forward.Bindings.{pair_addresses}
use docker_port_forward.Options.{RestartPolicy}
use docker_port_forward.Docker.{Error, DockerError}
use docker_port_forward.Probe.{Listener}
use docker_port_forward.Target.{ResolvedTarget, resolve_target}
use docker_port_forward.Launch.{Host, ForwardInput, ForwardResult, start_forward, probe_listeners}
use docker_port_forward.Entry.Project.{resolve_project_name}
use docker_port_forward.Entry.Checks.{
  Settings, SettingsError, ParsedSettings, fill_defaults, parse_settings,
}

-- `Port`
pub record Port : Type 0 where
  pub local : ℤ
  pub remote : ℤ
  pub protocol : Text
  pub addresses : List Text

-- `Result`
pub record Forwarded : Type 0 where
  pub helper_id : Text
  pub helper_name : Text
  pub ports : List Port
  pub existing : Bool

pub data ForwardError : Type 0 where
  refused : SettingsError → ForwardError
  no_client : DockerError → ForwardError
  failed : Error → ForwardError
  probing : Error → ForwardError
  none_detected : ForwardError

unfoldable pub port_of : List Text → PortPair → Port
port_of addresses p = record {
  local = p.local_port;
  remote = p.remote_port;
  protocol = protocol_text (normalize_protocol p.protocol);
  addresses = pair_addresses p addresses;
}

abbrev pub forwarded_of : List Text → ForwardResult → Forwarded
forwarded_of addresses r = record {
  helper_id = r.helper_id;
  helper_name = r.helper_name;
  ports = map (port_of addresses) r.pairs;
  existing = r.existing;
}

abbrev pub listened_pair : Listener → PortPair
listened_pair l = record {
  address = [];
  local_port = l.port;
  remote_port = l.port;
  protocol = l.protocol;
}

abbrev pub F : Type 0 → Type 0 → Type 0
F W A = W → Result ForwardError A × W

abbrev pub finished_with :
    List Text → Result Error (Option ForwardResult) → Result ForwardError (Option Forwarded)
finished_with addresses (ok none) = ok none
finished_with addresses (ok (some r)) = ok (some (forwarded_of addresses r))
finished_with addresses (err e) = err (failed e)

abbrev pub forward_input : Settings → ParsedSettings → ResolvedTarget → List PortPair → ForwardInput
forward_input o p target pairs = record {
  target = target;
  pairs = pairs;
  addresses = o.addresses;
  helper_image = o.helper_image;
  pull_policy = o.pull;
  running_timeout = o.running_timeout;
  detach = o.detach;
  restart_policy = p.restart_policy;
  log_config = record { driver = o.log_driver; config = o.log_opts };
  name = o.name;
  extra_labels = o.labels;
  skip_preflight = o.skip_preflight;
  udp_timeout = o.udp_timeout;
  tcp_half_close_timeout = o.tcp_half_close_timeout;
  source_range = p.source_range;
  network = o.network;
}

module _ (h : Host) (fuel : ℕ) (o : Settings) (p : ParsedSettings) where
  unfoldable pub forward_pairs :
      ResolvedTarget → List PortPair → F h.client.World (Option Forwarded)
  forward_pairs target pairs w =
      let (r, w') = start_forward h fuel (forward_input o p target pairs) w in
      (finished_with o.addresses r, w')

  abbrev pub forward_detected :
      ResolvedTarget → Result Error (List Listener) → F h.client.World (Option Forwarded)
  forward_detected target (err e) w = (err (probing e), w)
  forward_detected target (ok []) w = (err none_detected, w)
  forward_detected target (ok (l ∷ listeners)) w =
      forward_pairs target (map listened_pair (l ∷ listeners)) w

  abbrev pub forward_given : ResolvedTarget → List PortPair → F h.client.World (Option Forwarded)
  forward_given target (pair ∷ pairs) w = forward_pairs target (pair ∷ pairs) w
  forward_given target [] w =
      let (r, w') = probe_listeners h target.container_id o.helper_image o.pull w in
      forward_detected target r w'

  abbrev pub forward_resolved : Result Error ResolvedTarget → F h.client.World (Option Forwarded)
  forward_resolved (err e) w = (err (failed e), w)
  forward_resolved (ok target) w = forward_given target p.pairs w

  -- the client that `dockerClient` returns, or its error
  abbrev pub forward_opened :
      Result DockerError (Unit {0}) → Text → F h.client.World (Option Forwarded)
  forward_opened (err e) project w = (err (no_client e), w)
  forward_opened (ok _) project w =
      let (r, w') = resolve_target h.client p.target project w in forward_resolved r w'

module _ (validate is_none : RestartPolicy → Bool) (exists : Text → Bool)
    (absolute : Text → Option Text) (h : Host) (opened : Result DockerError (Unit {0}))
    (fuel : ℕ) where
  abbrev pub forward_parsed :
      Settings → Result SettingsError ParsedSettings → F h.client.World (Option Forwarded)
  forward_parsed o (err e) w = (err (refused e), w)
  forward_parsed o (ok p) w =
      forward_opened h fuel o p opened
        (resolve_project_name exists absolute o.project_name o.files p.target.type) w

  unfoldable pub forward : Settings → F h.client.World (Option Forwarded)
  forward settings w =
      forward_parsed (fill_defaults settings)
        (parse_settings validate is_none (fill_defaults settings)) w
