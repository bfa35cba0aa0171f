-- ===== src/Launch/Start.antt =====
-- internal/forward.go: `StartForward`. A client and a logger are always given; what is only logged is
-- left out.
use docker_port_forward.Docker.{
  Summary, M, pure, fail, wrap, ◌>>=◌, ◌>>◌, Error, Labels, Inspect, inspecting_forward_target,
  no_target_id, no_pairs, no_listen_addresses,
}
use docker_port_forward.Common.{
  ℕ, ◌+◌, ◌==◌, Bool, true, false, ◌&&◌, ltb, ℤ, pos, negsuc, Option, none, some, List, Result, ok,
  err, if◌then◌else◌, is_nil,
}
use docker_port_forward.Text.{Text, codes, trim_prefix}
use docker_port_forward.Netip.{Prefix}
use docker_port_forward.Ports.{PortPair}
use docker_port_forward.Bindings.{expand_addresses}
use docker_port_forward.Helpers.{helper_name, slash, pick_target_network, remove_orphaned_helpers}
use docker_port_forward.Target.{ResolvedTarget}
use docker_port_forward.Options.{RestartPolicy, source_range_label}
use docker_port_forward.Start.{Request, Reuse, reused, fresh, reuse_helper}
use docker_port_forward.Launch.Machine.{Host, LogConfig}
use docker_port_forward.Launch.Ports.{resolve_auto_ports, preflight_host_ports}
use docker_port_forward.Launch.Image.{ensure_helper_image, pull_missing}
use docker_port_forward.Launch.Loops.{wait_for_host_ports, port_release_timeout}
use docker_port_forward.Launch.Config.{HelperSpec, build_helper_container_config}
use docker_port_forward.Launch.Helper.{auto_name, random_hex, launch_helper, stop_and_remove}

-- `ForwardInput`; durations are in nanoseconds.
pub record ForwardInput : Type 0 where
  pub target : ResolvedTarget
  pub pairs : List PortPair
  pub addresses : List Text
  pub helper_image : Text
  pub pull_policy : Text
  pub running_timeout : ℤ
  pub detach : Bool
  pub restart_policy : RestartPolicy
  pub log_config : LogConfig
  pub name : Text
  pub extra_labels : Labels
  pub skip_preflight : Bool
  pub udp_timeout : ℤ
  pub tcp_half_close_timeout : ℤ
  pub source_range : Prefix
  pub network : Text

pub record ForwardResult : Type 0 where
  pub helper_id : Text
  pub helper_name : Text
  pub pairs : List PortPair
  pub existing : Bool

abbrev pub default_helper_image : Text
default_helper_image = codes "alpine/socat"

abbrev pub default_running_timeout : ℕ
default_running_timeout = 60_000_000_000

abbrev pub default_udp_timeout : ℕ
default_udp_timeout = 60_000_000_000

abbrev pub or_default : Text → Text → Text
or_default default text = if is_nil text then default else text

-- a duration that is not above zero is the default
abbrev pub or_timeout : ℕ → ℤ → ℕ
or_timeout default (pos n) = if n == 0 then default else n
or_timeout default (negsuc n) = default

unfoldable pub with_defaults : ForwardInput → ForwardInput
with_defaults input = record input {
  helper_image = or_default default_helper_image input.helper_image;
  pull_policy = or_default pull_missing input.pull_policy;
  running_timeout = pos (or_timeout default_running_timeout input.running_timeout);
  restart_policy =
      if is_nil input.restart_policy.name
      then record { name = codes "unless-stopped"; max_retries = pos 0 }
      else input.restart_policy;
  udp_timeout = pos (or_timeout default_udp_timeout input.udp_timeout);
}

unfoldable pub check_input : ForwardInput → Result Error (Unit {0})
check_input input =
    if is_nil input.target.container_id
    then err no_target_id
    else if is_nil input.pairs
    then err no_pairs
    else if is_nil (expand_addresses input.addresses)
    then err no_listen_addresses
    else ok tt

-- `none` is the end of the fuel, which ends what follows.
abbrev pub if_some : {W A B : Type 0} → (A → M W (Option B)) → Option A → M W (Option B)
if_some next none w = (ok none, w)
if_some next (some a) w = next a w

-- what the helper forwards, on which network and to which address
pub record Plan : Type 0 where
  pub pairs : List PortPair
  pub info : Inspect
  pub network : Text
  pub address : Text
  pub removed : ℕ

abbrev pub plan_for : List PortPair → Inspect → Text × Text → ℕ → Plan
plan_for pairs info (network, address) removed = record {
  pairs = pairs;
  info = info;
  network = network;
  address = address;
  removed = removed;
}

abbrev pub request_of : ForwardInput → List PortPair → Request
request_of input pairs = record {
  target_id = input.target.container_id;
  pairs = pairs;
  wanted_range = source_range_label input.source_range;
  network = input.network;
}

abbrev pub result_of : Plan → Text → Text → ForwardResult
result_of plan name id = record {
  helper_id = id;
  helper_name = name;
  pairs = plan.pairs;
  existing = false;
}

abbrev pub existing_result : List PortPair → Summary → ForwardResult
existing_result pairs s = record {
  helper_id = s.id;
  helper_name = trim_prefix slash (helper_name s);
  pairs = pairs;
  existing = true;
}

module _ (h : Host) (fuel : ℕ) (input : ForwardInput) where
  abbrev pub helper_spec : Plan → Text → Text → HelperSpec
  helper_spec plan name session = record {
    labelled = record {
      target_id = input.target.container_id;
      target_name = trim_prefix slash plan.info.name;
      target_network = plan.network;
      target_address = plan.address;
      pairs = plan.pairs;
      addresses = input.addresses;
      name = name;
      session = session;
      extra_labels = input.extra_labels;
      source_range = input.source_range;
    };
    image = input.helper_image;
    detach = input.detach;
    restart_policy = input.restart_policy;
    log_config = input.log_config;
    udp_timeout = input.udp_timeout;
    tcp_half_close_timeout = input.tcp_half_close_timeout;
  }

  abbrev pub wait_if_removed :
      List PortPair → ℕ → Result Error (Unit {0}) → M h.client.World (Option (Unit {0}))
  wait_if_removed pairs removed (ok _) w = (ok (some tt), w)
  wait_if_removed pairs removed (err e) w =
      if removed == 0
      then (err e, w)
      else wait_for_host_ports h fuel input.addresses pairs port_release_timeout w

  unfoldable pub check_ports : List PortPair → ℕ → M h.client.World (Option (Unit {0}))
  check_ports pairs removed w =
      if input.skip_preflight
      then (ok (some tt), w)
      else let (r, w') = preflight_host_ports h input.addresses pairs w in
        wait_if_removed pairs removed r w'

  abbrev pub chosen_name : Plan → h.client.World → Text × h.client.World
  chosen_name plan w = if is_nil input.name then auto_name h plan.info.name w else (input.name, w)

  -- Attached: until the context is done.
  abbrev pub serve : Plan → Text → Option Text → M h.client.World (Option ForwardResult)
  serve plan name none w = (ok none, w)
  serve plan name (some id) w =
      if input.detach
      then (ok (some (result_of plan name id)), w)
      else (ok (some (result_of plan name id)), stop_and_remove h id (h.context_done w))

  unfoldable pub create_helper : Plan → M h.client.World (Option ForwardResult)
  create_helper plan w =
      let (name, w1) = chosen_name plan w in
      let (session, w2) = random_hex h 8 w1 in
      let config = build_helper_container_config h.parse_port (helper_spec plan name session) in
      (launch_helper h fuel config name (input.skip_preflight && ltb 0 plan.removed)
            (or_timeout default_running_timeout input.running_timeout)
          >>= serve plan name)
        w2

  abbrev pub after_ports : Plan → Unit {0} → M h.client.World (Option ForwardResult)
  after_ports plan _ =
      ensure_helper_image h input.helper_image input.pull_policy >> create_helper plan

  abbrev pub after_orphans : Plan → ℕ → M h.client.World (Option ForwardResult)
  after_orphans plan orphans =
      check_ports plan.pairs (plan.removed + orphans)
      >>= if_some (after_ports (record plan { removed = plan.removed + orphans }))

  abbrev pub after_reuse :
      List PortPair → Inspect → Text × Text → Option Reuse → M h.client.World (Option ForwardResult)
  after_reuse pairs info picked none = pure none
  after_reuse pairs info picked (some (reused s)) = pure (some (existing_result pairs s))
  after_reuse pairs info picked (some (fresh removed)) =
      remove_orphaned_helpers h.client input.target.container_id pairs
      >>= after_orphans (record {
        pairs = pairs;
        info = info;
        network = picked.0;
        address = picked.1;
        removed = removed;
      })

  unfoldable pub forward_checked : M h.client.World (Option ForwardResult)
  forward_checked = do
    pairs ← resolve_auto_ports h input.addresses input.pairs
    info ← wrap inspecting_forward_target (h.client.container_inspect input.target.container_id)
    picked ← pick_target_network h.client info input.network
    reuse ← reuse_helper h.client (request_of input pairs) fuel 0
    after_reuse pairs info picked reuse

-- `fuel` bounds the rounds of each loop.
unfoldable pub start_forward :
    (h : Host) → ℕ → ForwardInput → M h.client.World (Option ForwardResult)
start_forward h fuel input = elim (check_input input) [
  | ok _ ↦ forward_checked h fuel (with_defaults input)
  | err e ↦ fail e
]
