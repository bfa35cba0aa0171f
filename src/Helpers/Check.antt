-- ===== src/Helpers/Check.antt =====
-- internal/drift.go: `CheckHelper`.
use docker_port_forward.Common.{
  Bool, true, false, not, ◌&&◌, ◌||◌, Option, none, some, List, [], ◌∷◌, if◌then◌else◌, Result, ok,
  err, is_nil,
}
use docker_port_forward.Text.{Text, codes, text_eq}
use docker_port_forward.Netip.{Addr, is_valid, addr_eq, parse_addr}
use docker_port_forward.Docker.{
  Client, Summary, Inspect, DockerError, label, is_not_found, Error, inspecting_network,
  inspecting_target, M, pure, ◌>>=◌,
}
use docker_port_forward.Helpers.Labels.{label_target, label_target_network, label_target_address}

pub data StaleReason : Type 0 where
  on_internal : Text → StaleReason
  target_gone : Text → StaleReason
  detached : Text → StaleReason
  address_changed : Addr → Addr → StaleReason

-- `Networks[name]`: the endpoint, if the map has one that is not nil.
abbrev pub find_endpoint : Text → List (Text × Option Addr) → Option Addr
find_endpoint name [] = none
find_endpoint name ((k, e) ∷ rest) = if text_eq name k then e else find_endpoint name rest

unfoldable pub endpoint : Inspect → Text → Option Addr
endpoint info name = elim info.networks [
  | none ↦ none
  | some networks ↦ find_endpoint name networks
]

abbrev pub is_some_addr : Option Addr → Bool
is_some_addr none = false
is_some_addr (some _) = true

unfoldable pub attached_to : Inspect → Text → Bool
attached_to info name = is_some_addr (endpoint info name)

unfoldable pub is_running : Inspect → Bool
is_running info = elim info.state [ none ↦ false | some s ↦ s.running ]

abbrev pub bridge : Text
bridge = codes "bridge"

-- The verdict: stale with a reason, or not stale.
abbrev pub Verdict : Type 0
Verdict = Option StaleReason

-- The target's address is compared with the recorded one.
abbrev pub compare_address : Addr → Option Addr → Verdict
compare_address target_ip none = none
compare_address target_ip (some current) =
    if is_valid current && not (addr_eq current target_ip)
    then some (address_changed target_ip current)
    else none

unfoldable pub check_by_name : Text → Text → Result DockerError Inspect → Result Error Verdict
check_by_name address network (ok info) =
    ok (if attached_to info network then none else some (detached network))
check_by_name address network (err e) =
    if is_not_found e then ok (some (target_gone address)) else err (inspecting_target address e)

unfoldable pub check_by_address :
    Addr → Text → Text → Result DockerError Inspect → Result Error Verdict
check_by_address target_ip target network (ok info) =
    if not (is_running info)
    then ok none
    else if not (attached_to info network)
    then ok (some (detached network))
    else ok (compare_address target_ip (endpoint info network))
check_by_address target_ip target network (err e) =
    if is_not_found e then ok (some (target_gone target)) else err (inspecting_target target e)

-- A network that is gone is reported later, as the target no longer being attached to it.
unfoldable pub check_network : Text → Result DockerError Bool → Result Error Verdict
check_network network (ok internal) = ok (if internal then some (on_internal network) else none)
check_network network (err e) =
    if is_not_found e then ok none else err (inspecting_network network e)

module _ (c : Client) where
  -- the target is inspected by the name or by the id
  unfoldable pub check_target : Text → Text → Text → M c.World Verdict
  check_target address network target w = elim (parse_addr address) [
    | none ↦ let (r, w') = c.container_inspect address w in (check_by_name address network r, w')
    | some target_ip ↦
        let (r, w') = c.container_inspect target w in
        (check_by_address target_ip target network r, w')
  ]

  -- the default bridge is not inspected
  unfoldable pub check_internal : Text → M c.World Verdict
  check_internal network w =
      let asked = c.network_inspect network w in
      if text_eq network bridge then (ok none, w) else (check_network network asked.0, asked.1)

  unfoldable pub check_labels : Text → Text → Text → M c.World Verdict
  check_labels address network target = if is_nil address || is_nil network then pure none else do
    internal ← check_internal network
    elim internal [ some reason ↦ pure (some reason) | none ↦ check_target address network target ]

  unfoldable pub check_helper : Summary → M c.World Verdict
  check_helper helper =
      check_labels (label label_target_address helper.labels)
        (label label_target_network helper.labels) (label label_target helper.labels)
