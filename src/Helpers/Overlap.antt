-- ===== src/Helpers/Overlap.antt =====
-- internal/forward.go: `findOverlappingHelper`, and internal/drift.go: `removeOrphanedHelpers`.
use docker_port_forward.Docker.{
  fail, Client, Summary, Inspect, DockerError, label, is_not_found, docker, removing_stale_helper,
  M, pure, ◌>>=◌, wrap,
}
use docker_port_forward.Common.{
  ℕ, suc, Bool, true, false, not, ◌&&◌, Option, none, some, List, [], ◌∷◌, if◌then◌else◌, Result,
  ok, err, any, int_eq, map, ◌==◌,
}
use docker_port_forward.Text.{trim_prefix, Text, codes, text_eq}
use docker_port_forward.Ports.{PortPair, normalize_protocol, protocol_eq}
use docker_port_forward.Bindings.{decode_port_pairs}
use docker_port_forward.Helpers.Network.{slash}
use docker_port_forward.Helpers.Labels.{label_target, label_ports, helper_name}
use docker_port_forward.Helpers.Remove.{list_helpers, remove_helpers}

-- `==` on port pairs
unfoldable pub pair_eq : PortPair → PortPair → Bool
pair_eq p q =
    text_eq p.address q.address
    && int_eq p.local_port q.local_port
    && int_eq p.remote_port q.remote_port
    && protocol_eq p.protocol q.protocol

abbrev pub normalized : PortPair → PortPair
normalized p = record p { protocol = normalize_protocol p.protocol }

abbrev pub wanted_key : PortPair → PortPair
wanted_key p = record p { address = []; protocol = normalize_protocol p.protocol }

-- the keys of the map `want`
unfoldable pub wanted : List PortPair → List PortPair
wanted = map wanted_key

unfoldable pub shares_pair : List PortPair → List PortPair → Bool
shares_pair want = any (λ p. any (pair_eq (normalized p)) want)

unfoldable pub summary_running : Summary → Bool
summary_running s = text_eq s.state (codes "running")

unfoldable pub recorded_pairs : Summary → List PortPair
recorded_pairs s = decode_port_pairs (label label_ports s.labels)

unfoldable pub overlaps : List PortPair → Summary → Bool
overlaps want s = summary_running s && shares_pair want (recorded_pairs s)

-- The first helper in the list that overlaps.
unfoldable pub first_overlap : List PortPair → List Summary → Option Summary
first_overlap want [] = none
first_overlap want (s ∷ rest) =
    let further = first_overlap want rest in if overlaps want s then some s else further

-- the local port and the protocol of a host binding
unfoldable pub same_host_port : PortPair → PortPair → Bool
same_host_port p q =
    int_eq p.local_port q.local_port
    && protocol_eq (normalize_protocol p.protocol) (normalize_protocol q.protocol)

unfoldable pub collides : List PortPair → List PortPair → Bool
collides requested = any (λ p. any (same_host_port p) requested)

-- A running helper of another target that holds a requested host port.
unfoldable pub is_candidate : Text → List PortPair → Summary → Bool
is_candidate target_id requested s =
    summary_running s
    && not (text_eq (label label_target s.labels) target_id)
    && collides requested (recorded_pairs s)

abbrev pub is_gone : Result DockerError Inspect → Bool
is_gone (ok _) = false
is_gone (err e) = is_not_found e

module _ (c : Client) where
  unfoldable pub find_overlapping_helper : Text → List PortPair → M c.World (Option Summary)
  find_overlapping_helper target_id requested = do
    list ← wrap docker (list_helpers c target_id)
    pure (first_overlap (wanted requested) list)

  -- The loop over the helpers, with the number removed so far.
  unfoldable pub remove_orphans : Text → List PortPair → ℕ → List Summary → M c.World ℕ
  remove_orphans target_id requested removed [] w = (ok removed, w)
  remove_orphans target_id requested removed (s ∷ rest) w =
      elim (is_candidate target_id requested s) [
        | false ↦ remove_orphans target_id requested removed rest w
        | true ↦
            let (r, w1) = c.container_inspect (label label_target s.labels) w in
            elim (is_gone r) [
              | false ↦ remove_orphans target_id requested removed rest w1
              | true ↦
                  let (n, w2) = remove_helpers c (s.id ∷ []) w1 in
                  elim (n == 1) [
                    | true ↦ remove_orphans target_id requested (suc removed) rest w2
                    | false ↦ (err (removing_stale_helper (trim_prefix slash (helper_name s))), w2)
                  ]
            ]
      ]

  abbrev pub orphans_of : Text → List PortPair → Result DockerError (List Summary) → M c.World ℕ
  orphans_of target_id requested (ok list) = remove_orphans target_id requested 0 list
  orphans_of target_id requested (err e) = fail (docker e)

  unfoldable pub remove_orphaned_helpers : Text → List PortPair → M c.World ℕ
  remove_orphaned_helpers target_id requested w =
      let (r, w') = list_helpers c [] w in orphans_of target_id requested r w'
