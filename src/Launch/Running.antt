-- ===== src/Launch/Running.antt =====
-- internal/forward.go: how `waitForRunning` ends.
use docker_port_forward.Text.{text_eq_sound, text_eq, codes, Text}
use docker_port_forward.Launch.Polled.{poll-Ends, period, Ticks, IsEnd, IsCanceled}
use docker_port_forward.Common.{
  suc, ◌+◌, pos, not, int_eq, ◌&&◌, arith, ◌*◌, Bool-cases, true, false, ap, ℕ, ◌<◌, ◌≡◌, ◌⊎◌, inl,
  inr, refl, Option, none, some, Result, ok, err,
}
use docker_port_forward.Docker.{
  exited, DockerError, ContainerState, Inspect, running_timed_out, Error,
}
use docker_port_forward.Launch.Loops.{running_round, state_round, wait_for_running, try_running}
use docker_port_forward.Launch.Machine.{Host}
use docker_port_forward.Launch.Poll.{over, again}

module _ (h : Host) where
  -- a container that is up, and one that is down for good
  abbrev pub IsUp : Result DockerError Inspect → Type 0
  IsUp (ok info) = (s : ContainerState) × (info.state ≡ some s) × (s.running ≡ true)
  IsUp (err _) = ⊥

  abbrev pub HasExited : Error → Result DockerError Inspect → Type 0
  HasExited e (ok info) =
      (s : ContainerState) × (info.state ≡ some s)
      × (s.running ≡ false)
      × (s.status ≡ codes "exited")
      × (int_eq s.exit_code (pos 0) ≡ false)
      × (e ≡ exited s.exit_code)
  HasExited e (err _) = ⊥

  module _ (id : Text) (deadline : ℕ) where
    abbrev pub IsRunningEnd : Result Error (Option (Unit {0})) × h.client.World → Type 0
    IsRunningEnd (ok none, w) = ⊥
    IsRunningEnd (ok (some _), w) =
        (before : h.client.World) × IsUp (h.client.container_inspect id before).0
        × ((h.client.container_inspect id before).1 ≡ w)
    IsRunningEnd (err e, w) =
        ((before : h.client.World) × HasExited e (h.client.container_inspect id before).0
          × ((h.client.container_inspect id before).1 ≡ w))
        ⊎ (((e ≡ running_timed_out) × (deadline < h.now w)) ⊎ IsCanceled h e w)

    running_over :
        (info : Inspect) (o : Option ContainerState)
        → info.state ≡ o
        → state_round o ≡ over (ok tt)
        → IsUp (ok info)
    running_over info none i e = cc
    running_over info (some s) i e = elim (Bool-cases s.running) [
      | inl up ↦ (s, i, up)
      | inr down ↦
          elim (Bool-cases
            (not (int_eq s.exit_code (pos 0)) && text_eq s.status (codes "exited"))) [
              | inl t ↦ absurd (ground arith)
              | inr t ↦ absurd (ground arith)
            ]
    ]

    running_failed :
        (info : Inspect) (o : Option ContainerState) (f : Error)
        → info.state ≡ o
        → state_round o ≡ over (err f)
        → HasExited f (ok info)
    running_failed info none f i e = cc
    running_failed info (some s) f i e = elim (Bool-cases s.running) [
      | inl up ↦ absurd (ground arith)
      | inr down ↦
          elim (Bool-cases
            (not (int_eq s.exit_code (pos 0)) && text_eq s.status (codes "exited"))) [
              | inl t ↦ (
                s,
                i,
                down,
                text_eq_sound s.status (codes "exited") (ground arith),
                ground arith,
                ground arith,
              )
              | inr t ↦ absurd (ground arith)
            ]
    ]

    running_again :
        (o : Option ContainerState) (f : Error) → state_round o ≡ again f → f ≡ running_timed_out
    running_again none f e = ground arith
    running_again (some s) f e = elim (Bool-cases s.running) [
      | inl up ↦ absurd (ground arith)
      | inr down ↦
          elim (Bool-cases
            (not (int_eq s.exit_code (pos 0)) && text_eq s.status (codes "exited"))) [
              | inl t ↦ absurd (ground arith)
              | inr t ↦ ground arith
            ]
    ]

    round_over : (r : Result DockerError Inspect) → running_round r ≡ over (ok tt) → IsUp r
    round_over (ok info) e = running_over info info.state refl e
    round_over (err f) e = cc

    round_failed :
        (r : Result DockerError Inspect) (f : Error)
        → running_round r ≡ over (err f)
        → HasExited f r
    round_failed (ok info) f e = running_failed info info.state f refl e
    round_failed (err g) f e = cc

    round_again :
        (r : Result DockerError Inspect) (f : Error)
        → running_round r ≡ again f
        → f ≡ running_timed_out
    round_again (ok info) f e = running_again info.state f e
    round_again (err g) f e = cc

    running_end :
        (r : Result Error (Option (Unit {0})) × h.client.World)
        → IsEnd h (try_running h id) deadline r
        → IsRunningEnd r
    running_end (ok none, w) i = i
    running_end (ok (some _), w) (before, e) = (
      before,
      round_over (h.client.container_inspect id before).0 (ap (λ t. t.0) e),
      ap (λ t. t.1) e,
    )
    running_end (err g, w) (before, inl e) = inl (
      before,
      round_failed (h.client.container_inspect id before).0 g (ap (λ t. t.0) e),
      ap (λ t. t.1) e,
    )
    running_end (err g, w) (before, inr (inl (e, late))) =
        inr (inl (round_again (h.client.container_inspect id before).0 g (ap (λ t. t.0) e), late))
    running_end (err g, w) (before, inr (inr (reason, e, stopped))) =
        inr (inr (before, reason, e, stopped))

-- `waitForRunning` ends in one round more than the timeout has pauses, when the clock of the host does
-- not go back and a pause takes its time. It succeeds only when the container was seen running, and
-- else it was seen to have exited with a code that is not zero, or the deadline is past, or the
-- context is done.
pub wait_for_running-IsRunningEnd :
    (h : Host) (id : Text) (timeout n : ℕ) (w : h.client.World)
    → Ticks h (try_running h id)
    → timeout < n * period
    → IsRunningEnd h id (h.now w + timeout) (wait_for_running h (suc n) id timeout w)
unfolding wait_for_running
wait_for_running-IsRunningEnd h id timeout n w ticks lt =
    running_end h id (h.now w + timeout) _ (poll-Ends h _ _ ticks n w (ground arith))
