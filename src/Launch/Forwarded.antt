-- ===== src/Launch/Forwarded.antt =====
-- internal/forward.go: what holds when `StartForward` returns.
use docker_port_forward.Common.{
  arith, Result-cases, ℤ, pos, negsuc, ℕ, suc, ◌+◌, ◌*◌, ◌<◌, ◌≡◌, inl, inr, refl, Option, none,
  some, List, Result, ok, err, Bool-cases, ◌==◌,
}
use docker_port_forward.Launch.Start.{
  ForwardInput, ForwardResult, Plan, request_of, wait_if_removed, check_ports, create_helper,
  after_ports, after_orphans, after_reuse, forward_checked, start_forward, check_input,
  with_defaults, or_timeout, default_running_timeout, if_some, plan_for,
}
use docker_port_forward.Launch.Machine.{Host}
use docker_port_forward.Text.{Text}
use docker_port_forward.Ports.{PortPair}
use docker_port_forward.Docker.{Inspect, Error, wrap, M, inspecting_forward_target}
use docker_port_forward.Helpers.{pick_target_network, remove_orphaned_helpers}
use docker_port_forward.Start.{Reuse, reused, fresh, reuse_helper}
use docker_port_forward.Start.Settled.{IsSettled, reuse_helper-IsSettled}
use docker_port_forward.Start.Dwindling.{rounds}
use docker_port_forward.Launch.Ports.{resolve_auto_ports, preflight_host_ports}
use docker_port_forward.Launch.Image.{ensure_helper_image}
use docker_port_forward.Launch.Loops.{port_release_timeout}
use docker_port_forward.Launch.Polled.{period}
use docker_port_forward.Launch.Freed.{ArePortsFree, wait_for_host_ports-ArePortsFree}
use docker_port_forward.Launch.Resolved.{AreResolved, resolved_pairs}
use docker_port_forward.Launch.Post.{IfDone, Given, then-IfDone, any_done, wrap-IfDone, as_returned}
use docker_port_forward.Launch.Served.{Reliable, IsPlanned, IsForwarded, create_helper-IfDone}

module _ (h : Host) (input : ForwardInput) (d : Reliable h input.target.container_id) where
  module _ (n : ℕ) (short : port_release_timeout < n * period)
      (enough : or_timeout default_running_timeout input.running_timeout < n * period)
      (bounded : (w : h.client.World)
        → rounds h.client input.target.container_id d.dwindles w < suc n) where
    waited-IfDone :
        (pairs : List PortPair) (deadline : ℕ)
        (r : Result Error (Option (Unit {0})) × h.client.World)
        → ArePortsFree h input.addresses pairs deadline r
        → IfDone (Given (λ _ _. Unit {0})) r
    waited-IfDone pairs deadline (ok none, w) e = e
    waited-IfDone pairs deadline (ok (some _), w) e = tt
    waited-IfDone pairs deadline (err _, w) e = tt

    wait_if_removed-IfDone :
        (pairs : List PortPair) (removed : ℕ) (r : Result Error (Unit {0})) (w : h.client.World)
        → IfDone (Given (λ _ _. Unit {0})) (wait_if_removed h (suc n) input pairs removed r w)
    wait_if_removed-IfDone pairs removed (ok _) w = tt
    wait_if_removed-IfDone pairs removed (err e) w = elim (Bool-cases (removed == 0)) [
      | inl t ↦ rw (wait_if_removed, t) tt
      | inr f ↦
          rw (wait_if_removed, f)
            (waited-IfDone pairs (h.now w + port_release_timeout) _ (
              wait_for_host_ports-ArePortsFree h input.addresses pairs port_release_timeout n w
                (d.ticks_ports input.addresses pairs) short))
    ]

    check_ports-IfDone :
        (pairs : List PortPair) (removed : ℕ) (w : h.client.World)
        → IfDone (Given (λ _ _. Unit {0})) (check_ports h (suc n) input pairs removed w)
    unfolding check_ports
    check_ports-IfDone pairs removed w = elim (Bool-cases input.skip_preflight) [
      | inl t ↦ rw (check_ports, t) tt
      | inr f ↦
          rw (check_ports, f)
            (wait_if_removed-IfDone pairs removed (preflight_host_ports h input.addresses pairs w).0
              (preflight_host_ports h input.addresses pairs w).1)
    ]

    after_ports-IfDone :
        (plan : Plan) (w : h.client.World)
        → AreResolved input.pairs plan.pairs
        → IsPlanned h input d input plan.pairs plan
        → IfDone (Given (IsForwarded h input d input)) (after_ports h (suc n) input plan tt w)
    after_ports-IfDone plan w resolved planned =
        then-IfDone (λ _ _. Unit {0}) (Given (IsForwarded h input d input))
          (λ _. create_helper h (suc n) input plan)
          (ensure_helper_image h input.helper_image input.pull_policy) w (any_done _)
          λ _ w' _. create_helper-IfDone h input d n short enough plan w' resolved planned

    if_some-IfDone :
        {A : Type 0} (next : A → M h.client.World (Option ForwardResult)) (o : Option A)
        (w : h.client.World)
        → Given (λ _ _. Unit {0}) o w
        → ((a : A) → IfDone (Given (IsForwarded h input d input)) (next a w))
        → IfDone (Given (IsForwarded h input d input)) (if_some next o w)
    if_some-IfDone next none w given done = given
    if_some-IfDone next (some a) w given done = done a

    after_orphans-IfDone :
        (plan : Plan) (orphans : ℕ) (w : h.client.World)
        → AreResolved input.pairs plan.pairs
        → IsPlanned h input d input plan.pairs plan
        → IfDone
            (Given (IsForwarded h input d input))
            (after_orphans h (suc n) input plan orphans w)
    after_orphans-IfDone plan orphans w resolved planned =
        then-IfDone (Given (λ _ _. Unit {0})) (Given (IsForwarded h input d input))
          (if_some (after_ports h (suc n) input (record plan { removed = plan.removed + orphans })))
          (check_ports h (suc n) input plan.pairs (plan.removed + orphans)) w
          (check_ports-IfDone plan.pairs (plan.removed + orphans) w)
          λ o w' given. if_some-IfDone _ o w' given λ _.
            after_ports-IfDone (record plan { removed = plan.removed + orphans }) w' resolved
              planned

    reused-IfDone :
        (pairs : List PortPair) (r : Result Error (Option Reuse) × h.client.World)
        → IsSettled h.client (request_of input pairs) d.dwindles r
        → IfDone (λ o w. IsSettled h.client (request_of input pairs) d.dwindles (ok o, w)) r
    reused-IfDone pairs (ok o, w) settled = settled
    reused-IfDone pairs (err _, w) settled = tt

    after_reuse-IfDone :
        (pairs : List PortPair) (info : Inspect) (picked : Text × Text) (o : Option Reuse)
        (w : h.client.World)
        → AreResolved input.pairs pairs
        → IsPlanned h input d input pairs (plan_for pairs info picked 0)
        → IsSettled h.client (request_of input pairs) d.dwindles (ok o, w)
        → IfDone
            (Given (IsForwarded h input d input))
            (after_reuse h (suc n) input pairs info picked o w)
    after_reuse-IfDone pairs info picked none w resolved planned settled = settled
    after_reuse-IfDone pairs info picked (some (reused s)) w resolved planned settled =
        (resolved, (s, refl, settled))
    after_reuse-IfDone pairs info picked (some (fresh removed)) w resolved planned settled =
        then-IfDone (λ _ _. Unit {0}) (Given (IsForwarded h input d input))
          (after_orphans h (suc n) input (plan_for pairs info picked removed))
          (remove_orphaned_helpers h.client input.target.container_id pairs) w (any_done _)
          λ orphans w' _.
            after_orphans-IfDone (plan_for pairs info picked removed) orphans w' resolved planned

    forward_checked-IfDone :
        (w : h.client.World)
        → IfDone (Given (IsForwarded h input d input)) (forward_checked h (suc n) input w)
    unfolding forward_checked
    forward_checked-IfDone w =
        then-IfDone (λ pairs _. AreResolved input.pairs pairs) (Given (IsForwarded h input d input))
          _ (resolve_auto_ports h input.addresses input.pairs) w
          (resolved_pairs h d.assigns input.addresses input.pairs w)
          λ pairs w1 resolved.
            then-IfDone
              (λ info _.
                (w : h.client.World) × ((h.client.container_inspect input.target.container_id w).0
                  ≡ ok info))
              (Given (IsForwarded h input d input)) _
              (wrap inspecting_forward_target
                (h.client.container_inspect input.target.container_id))
              w1
              (wrap-IfDone _ inspecting_forward_target
                (h.client.container_inspect input.target.container_id) w1 (λ info e. (w1, e)))
              λ info w2 inspected.
                then-IfDone
                  (λ picked _.
                    (w : h.client.World) × ((pick_target_network h.client info input.network w).0
                      ≡ ok picked))
                  (Given (IsForwarded h input d input)) _
                  (pick_target_network h.client info input.network) w2
                  (as_returned (pick_target_network h.client info input.network) w2)
                  λ picked w3 picks.
                    then-IfDone
                      (λ o w. IsSettled h.client (request_of input pairs) d.dwindles (ok o, w))
                      (Given (IsForwarded h input d input))
                      (after_reuse h (suc n) input pairs info picked)
                      (reuse_helper h.client (request_of input pairs) (suc n) 0) w3
                      (reused-IfDone pairs _ (
                        reuse_helper-IsSettled h.client (request_of input pairs) d.dwindles (suc n)
                          0 w3 (bounded w3)))
                      λ o w4 settled.
                        after_reuse-IfDone pairs info picked o w4 resolved (refl, inspected, picks)
                          settled

pub or_timeout_twice :
    (default : ℕ) (t : ℤ) → or_timeout default (pos (or_timeout default t)) ≡ or_timeout default t
or_timeout_twice default (pos k) = ground arith
or_timeout_twice default (negsuc k) = ground arith

-- `StartForward` ends, with an error or with a result. A result has the pairs that were asked for, in
-- their order, with their protocols written out and local ports that are not zero. Its helper is an
-- existing one, which is listed, covers at least one of these pairs, is not stale and has the source
-- range and the network that are asked for; or it is a new one. That was created with the
-- configuration for all of these pairs, the options with their default values, and the network and
-- the address that are picked for the target, and it was seen running, in the last step if it is
-- detached; a forced removal of it was the last step if it is attached. The host is reliable, where a
-- removal of a helper that is in progress is done at last, and the fuel is above the rounds of the
-- loop over the helpers and those that the timeouts have.
pub start_forward-IsForwarded :
    (h : Host) (input : ForwardInput) (d : Reliable h input.target.container_id) (n : ℕ)
    (w : h.client.World)
    → port_release_timeout < n * period
    → or_timeout default_running_timeout input.running_timeout < n * period
    → ((w : h.client.World) → rounds h.client input.target.container_id d.dwindles w < suc n)
    → IfDone (Given (IsForwarded h input d (with_defaults input))) (start_forward h (suc n) input w)
unfolding start_forward with_defaults
start_forward-IsForwarded h input d n w short enough bounded =
    elim (Result-cases (check_input input)) [
      | inl (t, good) ↦
          rw (start_forward, good)
            (forward_checked-IfDone h (with_defaults input) d n short
              (rw (or_timeout_twice default_running_timeout input.running_timeout) enough) bounded
              w)
      | inr (e, bad) ↦ rw (start_forward, bad) tt
    ]
