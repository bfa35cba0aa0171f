-- ===== src/Launch/Loops.antt =====
-- internal/forward.go: `waitForHostPorts`, `startWithPortRetry` and `waitForRunning`.
use docker_port_forward.Common.{
  ℕ, Bool, not, ◌&&◌, ◌||◌, ◌+◌, Option, none, some, List, Result, ok, err, pos, int_eq,
  if◌then◌else◌,
}
use docker_port_forward.Text.{codes, Text, text_eq, contains, to_lower}
use docker_port_forward.Ports.{PortPair}
use docker_port_forward.Docker.{
  M, Error, DockerError, Inspect, ContainerState, docker, exited, running_timed_out,
}
use docker_port_forward.Launch.Machine.{Host}
use docker_port_forward.Launch.Poll.{Round, over, again, poll}
use docker_port_forward.Launch.Ports.{preflight_host_ports}

-- in nanoseconds
abbrev pub port_release_timeout : ℕ
port_release_timeout = 10_000_000_000

unfoldable pub is_port_conflict : DockerError → Bool
is_port_conflict e =
    contains (to_lower e.message) (codes "port is already allocated")
    || contains (to_lower e.message) (codes "address already in use")

abbrev pub preflight_round : Result Error (Unit {0}) → Round
preflight_round (ok _) = over (ok tt)
preflight_round (err e) = again e

abbrev pub start_round : Bool → Result DockerError (Unit {0}) → Round
start_round retry (ok _) = over (ok tt)
start_round retry (err e) =
    if not retry || not (is_port_conflict e) then over (err (docker e)) else again (docker e)

abbrev pub state_round : Option ContainerState → Round
state_round none = again running_timed_out
state_round (some s) =
    if s.running
    then over (ok tt)
    else if not (int_eq s.exit_code (pos 0)) && text_eq s.status (codes "exited")
    then over (err (exited s.exit_code))
    else again running_timed_out

abbrev pub running_round : Result DockerError Inspect → Round
running_round (ok info) = state_round info.state
running_round (err _) = again running_timed_out

module _ (h : Host) where
  abbrev pub try_ports : List Text → List PortPair → h.client.World → Round × h.client.World
  try_ports defaults pairs w =
      let (r, w') = preflight_host_ports h defaults pairs w in (preflight_round r, w')

  unfoldable pub wait_for_host_ports :
      ℕ → List Text → List PortPair → ℕ → M h.client.World (Option (Unit {0}))
  wait_for_host_ports fuel defaults pairs timeout w =
      poll h (try_ports defaults pairs) (h.now w + timeout) fuel w

  abbrev pub try_start : Text → Bool → h.client.World → Round × h.client.World
  try_start id retry w = let (r, w') = h.container_start id w in (start_round retry r, w')

  unfoldable pub start_with_port_retry : ℕ → Text → Bool → ℕ → M h.client.World (Option (Unit {0}))
  start_with_port_retry fuel id retry timeout w =
      poll h (try_start id retry) (h.now w + timeout) fuel w

  abbrev pub try_running : Text → h.client.World → Round × h.client.World
  try_running id w = let (r, w') = h.client.container_inspect id w in (running_round r, w')

  unfoldable pub wait_for_running : ℕ → Text → ℕ → M h.client.World (Option (Unit {0}))
  wait_for_running fuel id timeout w = poll h (try_running id) (h.now w + timeout) fuel w
