-- ===== src/Launch/TwiceTests.antt =====
-- A second call of `StartForward` after the one that created the helper.
use docker_port_forward.Common.{
  arith, All, ◌≡◌, refl, some, [], ◌∷◌, ok, pos, map, none, true, inl, inr,
}
use docker_port_forward.Netip.{addr_eq, is_valid, parse_addr, prefix_valid, no_prefix}
use docker_port_forward.Helpers.{
  check_requested, pick_requested_network, internal_network, target_address, check_network,
  is_tolerated, check_target, is_running, attached_to, check_internal, check_labels,
  check_by_address, summary_running, check_by_name, endpoint, helper_name, normalized, check_helper,
  pick_target_network,
}
use docker_port_forward.Text.{
  trim_prefix, cut, contains, split, cut_last, cut_prefix, to_lower, contains_char, atoi, is_space,
  trim_space, text_eq, codes,
}
use docker_port_forward.Ports.{
  normalize_protocol, protocol_eq, to_protocol, PortPair, tcp, udp, localhost,
}
use docker_port_forward.Bindings.{
  decode_token, decode_ports, decode_port_pairs, decode_list, expand_one, add_address, expand_each,
  expand_addresses,
}
use docker_port_forward.Docker.{is_not_found, is_no_such_container, label, Summary, Inspect}
use docker_port_forward.Options.{source_range_label}
use docker_port_forward.Start.{helper_labels, own_labels}
use docker_port_forward.Launch.Start.{
  ForwardInput, start_forward, check_input, existing_result, helper_spec, plan_for, Plan,
}
use docker_port_forward.Launch.Config.{build_helper_container_config}
use docker_port_forward.Launch.Example.{host, place, up, dwindles, Site}
use docker_port_forward.Launch.Twice.{IsCreated, start_forward-twice}
use docker_port_forward.Bindings.RoundTrip.{IsRecordable}

abbrev web : PortPair
web = record { address = []; local_port = pos 8080; remote_port = pos 80; protocol = tcp }

abbrev dns : PortPair
dns = record { address = codes "*"; local_port = pos 53; remote_port = pos 53; protocol = udp }

abbrev input : ForwardInput
input = record {
  target = record { container_id = codes "app"; container_name = codes "web" };
  pairs = web ∷ dns ∷ [];
  addresses = localhost ∷ [];
  helper_image = [];
  pull_policy = [];
  running_timeout = pos 0;
  detach = true;
  restart_policy = record { name = []; max_retries = pos 0 };
  log_config = record { driver = []; config = [] };
  name = codes "pf";
  extra_labels = [];
  skip_preflight = true;
  udp_timeout = pos 0;
  tcp_half_close_timeout = pos 0;
  source_range = no_prefix;
  network = codes "net";
}

abbrev target : Inspect
target = up true (codes "app") (codes "/web")

abbrev plan : Plan
plan = plan_for (web ∷ dns ∷ []) target (codes "net", codes "web") 0

abbrev created : Summary
created = record {
  id = codes "pf1";
  names = codes "/pf" ∷ [];
  labels =
      (build_helper_container_config host.parse_port
        (helper_spec host 1 input plan (codes "pf") (codes "0a"))).labels;
  state = codes "running";
}

abbrev site : Site
site = record { clock = 7; helper = some created }

valid : check_input input ≡ ok tt
unfolding check_input expand_addresses expand_each expand_one trim_space is_space text_eq
    add_address
valid = refl

picks : pick_target_network place target (codes "net") site ≡ (ok (codes "net", codes "web"), site)
unfolding pick_target_network pick_requested_network text_eq attached_to endpoint target_address
    is_valid trim_prefix check_requested internal_network
picks = refl

created-IsCreated : IsCreated host input 1 plan (codes "pf") (codes "0a") created
unfolding summary_running text_eq normalize_protocol
created-IsCreated = record {
  labelled = refl;
  runs = refl;
  pairs_planned = refl;
  network_planned = inr refl;
}

recordable : All IsRecordable (web ∷ dns ∷ [])
unfolding normalize_protocol
recordable = (
  record { known = tt; local_fits = omega arith; remote_fits = omega arith },
  (record { known = tt; local_fits = omega arith; remote_fits = omega arith }, tt),
)

current : (check_helper place created site).0 ≡ ok none
unfolding summary_running check_helper check_labels check_internal check_target check_by_address
    check_by_name attached_to endpoint is_running check_network is_tolerated helper_name
    decode_port_pairs decode_list decode_ports decode_token text_eq split trim_space is_space
    cut_last cut atoi to_lower contains cut_prefix contains_char normalize_protocol protocol_eq
    to_protocol label is_not_found is_no_such_container parse_addr is_valid addr_eq
    build_helper_container_config helper_labels own_labels source_range_label prefix_valid
current = refl

there : (dwindles (codes "app")).steady.find site (codes "app") ≡ ok target
unfolding dwindles text_eq
there = refl

listed : (dwindles (codes "app")).helpers site ≡ ok (created ∷ [])
unfolding dwindles
listed = refl

start_forward-twice_example :
    start_forward host 1 input site
    ≡ (ok (some (existing_result (map normalized (web ∷ dns ∷ [])) created)), site)
unfolding normalize_protocol
start_forward-twice_example =
    start_forward-twice host input (dwindles (codes "app")) 0 1 plan (codes "pf") (codes "0a")
      target (codes "net", codes "web") created [] web site valid (refl, (refl, tt)) recordable
      (inl refl) (record { leaves_ports = tt; leaves_range = tt; leaves_network = tt })
      created-IsCreated there picks listed current
