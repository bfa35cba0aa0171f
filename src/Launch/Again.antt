-- ===== src/Launch/Again.antt =====
-- internal/forward.go: `StartForward` when a helper already does what is asked for.
use docker_port_forward.Docker.{M, Summary, Inspect, ◌>>=◌, pure, wrap, inspecting_forward_target}
use docker_port_forward.Common.{
  ℕ, suc, ◌≡◌, refl, ◌∙◌, true, false, Option, none, some, List, [], ◌∷◌, ok, All, pos, int_eq, map,
  if◌then◌else◌,
}
use docker_port_forward.Text.{Text}
use docker_port_forward.Ports.{PortPair}
use docker_port_forward.Helpers.{
  normalized, wanted, first_overlap, check_helper, pick_target_network,
}
use docker_port_forward.Helpers.Verdicts.{check_helper_steady}
use docker_port_forward.Start.{serves, reused, reuse_helper, judged}
use docker_port_forward.Start.Settled.{found_list}
use docker_port_forward.Start.Dwindling.{Dwindles}
use docker_port_forward.Launch.Machine.{Host}
use docker_port_forward.Launch.Ports.{resolve_port, resolve_auto_ports}
use docker_port_forward.Launch.Start.{
  ForwardInput, ForwardResult, request_of, existing_result, after_reuse, forward_checked,
  start_forward, check_input, with_defaults,
}
use docker_port_forward.Launch.Post.{then-eq}

abbrev pub HasLocal : PortPair → Type 0
HasLocal p = int_eq p.local_port (pos 0) ≡ false

module _ (h : Host) where
  resolve_given :
      (defaults : List Text) (pairs : List PortPair) (w : h.client.World)
      → All HasLocal pairs
      → resolve_auto_ports h defaults pairs w ≡ (ok (map normalized pairs), w)
  unfolding resolve_auto_ports resolve_port
  resolve_given defaults [] w local = refl
  resolve_given defaults (p ∷ pairs) w (here, local) =
      then-eq (resolve_port h defaults p)
        (λ q. resolve_auto_ports h defaults pairs >>= λ rest. pure (q ∷ rest)) w w (normalized p)
        (rw (resolve_port, here, if◌then◌else◌) refl)
      ∙ then-eq (resolve_auto_ports h defaults pairs) (λ rest. pure (normalized p ∷ rest)) w w
          (map normalized pairs) (resolve_given defaults pairs w local)

  module _ (input : ForwardInput) (d : Dwindles h.client input.target.container_id) where
    reuse_first :
        (fuel removed : ℕ) (pairs : List PortPair) (list : List Summary) (s : Summary)
        (w : h.client.World)
        → d.helpers w ≡ ok list
        → first_overlap (wanted pairs) list ≡ some s
        → (check_helper h.client s w).0 ≡ ok none
        → serves (request_of input pairs) s none ≡ true
        → reuse_helper h.client (request_of input pairs) (suc fuel) removed w
          ≡ (ok (some (reused s)), w)
    unfolding reuse_helper
    reuse_first fuel removed pairs list s w listed first current good =
        rw (reuse_helper, found_list h.client (request_of input pairs) d list w listed, first)
          (rw (check_helper_steady h.client d.steady s w, current) (rw (judged, good) refl))

    -- what is left of `StartForward` after each of its first steps
    abbrev from_reuse :
        ℕ → List PortPair → Inspect → Text × Text → M h.client.World (Option ForwardResult)
    from_reuse fuel pairs info picked =
        reuse_helper h.client (request_of input pairs) (suc fuel) 0
        >>= after_reuse h (suc fuel) input pairs info picked

    abbrev from_pick : ℕ → List PortPair → Inspect → M h.client.World (Option ForwardResult)
    from_pick fuel pairs info =
        pick_target_network h.client info input.network >>= from_reuse fuel pairs info

    abbrev from_info : ℕ → List PortPair → M h.client.World (Option ForwardResult)
    from_info fuel pairs =
        wrap inspecting_forward_target (h.client.container_inspect input.target.container_id)
        >>= from_pick fuel pairs

    forward_again :
        (fuel : ℕ) (info : Inspect) (picked : Text × Text) (list : List Summary) (s : Summary)
        (w : h.client.World)
        → All HasLocal input.pairs
        → d.steady.find w input.target.container_id ≡ ok info
        → pick_target_network h.client info input.network w ≡ (ok picked, w)
        → d.helpers w ≡ ok list
        → first_overlap (wanted (map normalized input.pairs)) list ≡ some s
        → (check_helper h.client s w).0 ≡ ok none
        → serves (request_of input (map normalized input.pairs)) s none ≡ true
        → forward_checked h (suc fuel) input w
          ≡ (ok (some (existing_result (map normalized input.pairs) s)), w)
    unfolding forward_checked
    forward_again fuel info picked list s w local there picks listed first current good =
        then-eq (resolve_auto_ports h input.addresses input.pairs) (from_info fuel) w w
          (map normalized input.pairs) (resolve_given input.addresses input.pairs w local)
        ∙ then-eq
            (wrap inspecting_forward_target (h.client.container_inspect input.target.container_id))
            (from_pick fuel (map normalized input.pairs)) w w info
            (rw (wrap, d.steady.inspects, there, d.steady.inspects) refl)
        ∙ then-eq (pick_target_network h.client info input.network)
            (from_reuse fuel (map normalized input.pairs) info) w w picked picks
        ∙ then-eq
            (reuse_helper h.client (request_of input (map normalized input.pairs)) (suc fuel) 0)
            (after_reuse h (suc fuel) input (map normalized input.pairs) info picked) w w
            (some (reused s))
            (reuse_first fuel 0 (map normalized input.pairs) list s w listed first current good)

-- A second call changes nothing. When the pairs have local ports, and the first running helper that
-- covers one of them is not stale and has the source range and the network that are asked for,
-- `StartForward` returns that helper, and the daemon and the host are as before. The daemon answers
-- without changing, and the choice of the network succeeds.
pub start_forward-unchanged :
    (h : Host) (input : ForwardInput) (d : Dwindles h.client input.target.container_id) (fuel : ℕ)
    (info : Inspect) (picked : Text × Text) (list : List Summary) (s : Summary) (w : h.client.World)
    → check_input input ≡ ok tt
    → All HasLocal input.pairs
    → d.steady.find w input.target.container_id ≡ ok info
    → pick_target_network h.client info input.network w ≡ (ok picked, w)
    → d.helpers w ≡ ok list
    → first_overlap (wanted (map normalized input.pairs)) list ≡ some s
    → (check_helper h.client s w).0 ≡ ok none
    → serves (request_of input (map normalized input.pairs)) s none ≡ true
    → start_forward h (suc fuel) input w
      ≡ (ok (some (existing_result (map normalized input.pairs) s)), w)
unfolding start_forward with_defaults
start_forward-unchanged h input d fuel info picked list s w valid local there picks listed first
      current good =
    rw (start_forward, valid)
      (forward_again h (with_defaults input) d fuel info picked list s w local there picks listed
        first current good)
