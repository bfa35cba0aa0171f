-- ===== src/Launch/Tests.antt =====
-- `StartForward` and its parts on the host of Example.
use docker_port_forward.Launch.Start.{
  with_defaults, ForwardInput, start_forward, helper_spec, plan_for, default_running_timeout,
}
use docker_port_forward.Launch.Example.{
  reliable, at_most_one, Site, up, host, assigns, ticks, removes_all, ports_tick,
}
use docker_port_forward.Launch.Image.{pull_image, ensure_helper_image}
use docker_port_forward.Text.{text_eq, codes}
use docker_port_forward.Launch.Detect.{probe_listeners}
use docker_port_forward.Launch.Detected.{IsProbed, probe_listeners-IsProbed}
use docker_port_forward.Ports.{normalize_protocol, PortPair, tcp, udp, unset, localhost}
use docker_port_forward.Launch.Ports.{resolve_port, resolve_auto_ports}
use docker_port_forward.Common.{◌≡◌, ◌+◌, refl, true, false, none, some, [], ◌∷◌, ok, arith, pos}
use docker_port_forward.Launch.Loops.{wait_for_host_ports, start_with_port_retry, wait_for_running}
use docker_port_forward.Netip.{no_prefix}
use docker_port_forward.Launch.Resolved.{AreResolved, resolve_auto_ports-AreResolved}
use docker_port_forward.Launch.Post.{IfDone, Given}
use docker_port_forward.Launch.Freed.{ArePortsFree, wait_for_host_ports-ArePortsFree}
use docker_port_forward.Launch.Started.{IsStarted, start_with_port_retry-IsStarted}
use docker_port_forward.Launch.Running.{IsRunningEnd, wait_for_running-IsRunningEnd}
use docker_port_forward.Launch.Launched.{IsLaunched, launch_helper-IsLaunched}
use docker_port_forward.Launch.Served.{IsForwarded}
use docker_port_forward.Launch.Forwarded.{start_forward-IsForwarded}
use docker_port_forward.Launch.Config.{build_helper_container_config}
use docker_port_forward.Launch.Helper.{launch_helper}

abbrev web : PortPair
web = record { address = []; local_port = pos 0; remote_port = pos 80; protocol = unset }

abbrev dns : PortPair
dns = record { address = codes "*"; local_port = pos 53; remote_port = pos 53; protocol = udp }

abbrev empty : Site
empty = record { clock = 7; helper = none }

abbrev input : ForwardInput
input = record {
  target = record { container_id = codes "app"; container_name = codes "web" };
  pairs = web ∷ dns ∷ [];
  addresses = localhost ∷ [];
  helper_image = [];
  pull_policy = [];
  running_timeout = pos 0;
  detach = true;
  restart_policy = record { name = []; max_retries = pos 0 };
  log_config = record { driver = []; config = [] };
  name = codes "pf";
  extra_labels = [];
  skip_preflight = false;
  udp_timeout = pos 0;
  tcp_half_close_timeout = pos 0;
  source_range = no_prefix;
  network = [];
}

start_forward-IsForwarded_example :
    IfDone
      (Given (IsForwarded host input (reliable (codes "app")) (with_defaults input)))
      (start_forward host 302 input empty)
start_forward-IsForwarded_example =
    start_forward-IsForwarded host input (reliable (codes "app")) 301 empty (omega arith)
      (omega arith) (at_most_one (codes "app"))

launch_helper-IsLaunched_example : IsLaunched host removes_all (ok (codes "new")) (
    launch_helper host 302
      (build_helper_container_config
        (λ t. some t)
        (helper_spec host 302 input
          (plan_for (dns ∷ []) (up true (codes "app") (codes "/web")) (codes "net", codes "web") 0)
          (codes "pf")
          (codes "0a")))
      (codes "pf")
      true
      default_running_timeout
      empty)
launch_helper-IsLaunched_example =
    launch_helper-IsLaunched host removes_all ticks 301 _ (codes "pf") true default_running_timeout
      empty (omega arith) (omega arith)

wait_for_host_ports-ArePortsFree_example :
    ArePortsFree host [] (dns ∷ []) (7 + 1000) (wait_for_host_ports host 2 [] (dns ∷ []) 1000 empty)
wait_for_host_ports-ArePortsFree_example =
    wait_for_host_ports-ArePortsFree host [] (dns ∷ []) 1000 1 empty (ports_tick [] (dns ∷ []))
      (omega arith)

start_with_port_retry-IsStarted_example :
    IsStarted host
      (codes "new")
      true
      (7 + 1000)
      (start_with_port_retry host 2 (codes "new") true 1000 empty)
start_with_port_retry-IsStarted_example =
    start_with_port_retry-IsStarted host (codes "new") true 1000 1 empty
      (ticks.starting (codes "new") true) (omega arith)

wait_for_running-IsRunningEnd_example :
    IsRunningEnd host (codes "new") (7 + 1000) (wait_for_running host 7 (codes "new") 1000 empty)
wait_for_running-IsRunningEnd_example =
    wait_for_running-IsRunningEnd host (codes "new") 1000 6 empty (ticks.running (codes "new"))
      (omega arith)

resolved :
    resolve_auto_ports host [] (web ∷ dns ∷ []) empty
    ≡ (ok (record web { local_port = pos 40000; protocol = tcp } ∷ dns ∷ []), empty)
unfolding resolve_auto_ports resolve_port normalize_protocol
resolved = refl

resolve_auto_ports-AreResolved_example :
    AreResolved (web ∷ dns ∷ []) (record web { local_port = pos 40000; protocol = tcp } ∷ dns ∷ [])
resolve_auto_ports-AreResolved_example =
    resolve_auto_ports-AreResolved host assigns [] (web ∷ dns ∷ []) _ empty empty resolved

probe_listeners-IsProbed_example :
    IsProbed host removes_all
      (ok tt)
      (ok (codes "new"))
      (probe_listeners host (codes "app") (codes "alpine/socat") (codes "always") empty)
unfolding ensure_helper_image text_eq pull_image
probe_listeners-IsProbed_example =
    probe_listeners-IsProbed host removes_all (codes "app") (codes "alpine/socat") (codes "always")
      empty
