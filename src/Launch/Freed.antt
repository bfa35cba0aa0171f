-- ===== src/Launch/Freed.antt =====
-- internal/forward.go: how `waitForHostPorts` ends.
use docker_port_forward.Text.{Text}
use docker_port_forward.Launch.Polled.{poll-Ends, period, Ticks, IsEnd, IsCanceled}
use docker_port_forward.Common.{
  suc, ◌+◌, arith, ◌*◌, ap, ℕ, ◌<◌, ◌≡◌, ◌⊎◌, inl, inr, refl, Option, none, some, List, Result, ok,
  err,
}
use docker_port_forward.Docker.{Error}
use docker_port_forward.Launch.Loops.{wait_for_host_ports, preflight_round, try_ports}
use docker_port_forward.Ports.{PortPair}
use docker_port_forward.Launch.Machine.{Host}
use docker_port_forward.Launch.Poll.{over, again}
use docker_port_forward.Launch.Ports.{preflight_host_ports}

module _ (h : Host) where
  module _ (defaults : List Text) (pairs : List PortPair) (deadline : ℕ) where
    abbrev pub ArePortsFree : Result Error (Option (Unit {0})) × h.client.World → Type 0
    ArePortsFree (ok none, w) = ⊥
    ArePortsFree (ok (some _), w) =
        (before : h.client.World) × (preflight_host_ports h defaults pairs before ≡ (ok tt, w))
    ArePortsFree (err e, w) =
        ((before : h.client.World) × (preflight_host_ports h defaults pairs before ≡ (err e, w))
          × (deadline < h.now w))
        ⊎ IsCanceled h e w

    free_over :
        (r : Result Error (Unit {0})) (x : Result Error (Unit {0}))
        → preflight_round r ≡ over x
        → (r ≡ ok tt) × (x ≡ ok tt)
    free_over (ok _) x e = (refl, cc)
    free_over (err f) x e = cc

    free_again : (r : Result Error (Unit {0})) (f : Error) → preflight_round r ≡ again f → r ≡ err f
    free_again (ok _) f e = cc
    free_again (err g) f e = cc

    free_end :
        (r : Result Error (Option (Unit {0})) × h.client.World)
        → IsEnd h (try_ports h defaults pairs) deadline r
        → ArePortsFree r
    free_end (ok none, w) i = i
    free_end (ok (some _), w) (before, e) =
        let p =
          free_over (preflight_host_ports h defaults pairs before).0 (ok tt) (ap (λ t. t.0) e) in
        (before, let q = ap (λ t. t.1) e in cc)
    free_end (err f, w) (before, inl e) =
        let p =
          free_over (preflight_host_ports h defaults pairs before).0 (err f) (ap (λ t. t.0) e) in
        cc
    free_end (err f, w) (before, inr (inl (e, late))) =
        let p = free_again (preflight_host_ports h defaults pairs before).0 f (ap (λ t. t.0) e) in
        inl (before, (let q = ap (λ t. t.1) e in cc), late)
    free_end (err f, w) (before, inr (inr (reason, e, stopped))) = inr (before, reason, e, stopped)

-- `waitForHostPorts` ends in one round more than the timeout has pauses, when the clock of the host
-- does not go back and a pause takes its time. It succeeds only with a check of the ports that did,
-- and else gives the error of a check that ended past the deadline, or that of the context.
pub wait_for_host_ports-ArePortsFree :
    (h : Host) (defaults : List Text) (pairs : List PortPair) (timeout n : ℕ) (w : h.client.World)
    → Ticks h (try_ports h defaults pairs)
    → timeout < n * period
    → ArePortsFree h defaults pairs
        (h.now w + timeout)
        (wait_for_host_ports h (suc n) defaults pairs timeout w)
unfolding wait_for_host_ports
wait_for_host_ports-ArePortsFree h defaults pairs timeout n w ticks lt =
    free_end h defaults pairs (h.now w + timeout) _ (poll-Ends h _ _ ticks n w (ground arith))
