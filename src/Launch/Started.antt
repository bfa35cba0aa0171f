-- ===== src/Launch/Started.antt =====
-- internal/forward.go: how `startWithPortRetry` ends.
use docker_port_forward.Text.{Text}
use docker_port_forward.Launch.Polled.{poll-Ends, period, Ticks, IsEnd, IsCanceled}
use docker_port_forward.Common.{
  suc, ◌+◌, ◌||◌, not, ◌&&◌, arith, ◌*◌, Bool-cases, false, Bool, ap, ℕ, ◌<◌, ◌≡◌, ◌⊎◌, inl, inr,
  refl, Option, none, some, Result, ok, err,
}
use docker_port_forward.Docker.{docker, DockerError, Error}
use docker_port_forward.Launch.Loops.{
  is_port_conflict, try_start, start_round, start_with_port_retry,
}
use docker_port_forward.Launch.Machine.{Host}
use docker_port_forward.Launch.Poll.{over, again}

module _ (h : Host) where
  module _ (id : Text) (retry : Bool) (deadline : ℕ) where
    abbrev pub IsStarted : Result Error (Option (Unit {0})) × h.client.World → Type 0
    IsStarted (ok none, w) = ⊥
    IsStarted (ok (some _), w) =
        (before : h.client.World) × (h.container_start id before ≡ (ok tt, w))
    IsStarted (err e, w) =
        ((before : h.client.World) × (f : DockerError) × (h.container_start id before ≡ (err f, w))
          × (e ≡ docker f)
          × (((retry && is_port_conflict f) ≡ false) ⊎ (deadline < h.now w)))
        ⊎ IsCanceled h e w

    started_over :
        (r : Result DockerError (Unit {0})) → start_round retry r ≡ over (ok tt) → r ≡ ok tt
    started_over (ok _) e = refl
    started_over (err f) e = elim (Bool-cases (not retry || not (is_port_conflict f))) [
      | inl t ↦ absurd (ground arith)
      | inr t ↦ absurd (ground arith)
    ]

    started_failed :
        (r : Result DockerError (Unit {0})) (e : Error)
        → start_round retry r ≡ over (err e)
        → (f : DockerError) × (r ≡ err f) × (e ≡ docker f) × ((retry && is_port_conflict f) ≡ false)
    started_failed (ok _) e h' = cc
    started_failed (err f) e h' = elim (Bool-cases (not retry || not (is_port_conflict f))) [
      | inl t ↦ (f, refl, ground arith, ground arith)
      | inr t ↦ absurd (ground arith)
    ]

    started_again :
        (r : Result DockerError (Unit {0})) (e : Error)
        → start_round retry r ≡ again e
        → (f : DockerError) × (r ≡ err f) × (e ≡ docker f)
    started_again (ok _) e h' = cc
    started_again (err f) e h' = elim (Bool-cases (not retry || not (is_port_conflict f))) [
      | inl t ↦ absurd (ground arith)
      | inr t ↦ (f, refl, ground arith)
    ]

    end-IsStarted :
        (r : Result Error (Option (Unit {0})) × h.client.World)
        → IsEnd h (try_start h id retry) deadline r
        → IsStarted r
    end-IsStarted (ok none, w) i = i
    end-IsStarted (ok (some _), w) (before, e) =
        let p = started_over (h.container_start id before).0 (ap (λ t. t.0) e) in
        (before, let q = ap (λ t. t.1) e in cc)
    end-IsStarted (err g, w) (before, inl e) =
        let (f, p, same, no_conflict) =
          started_failed (h.container_start id before).0 g (ap (λ t. t.0) e) in
        inl (before, f, (let q = ap (λ t. t.1) e in cc), same, inl no_conflict)
    end-IsStarted (err g, w) (before, inr (inl (e, late))) =
        let (f, p, same) = started_again (h.container_start id before).0 g (ap (λ t. t.0) e) in
        inl (before, f, (let q = ap (λ t. t.1) e in cc), same, inr late)
    end-IsStarted (err g, w) (before, inr (inr (reason, e, stopped))) =
        inr (before, reason, e, stopped)

-- `startWithPortRetry` ends in one round more than the timeout has pauses, when the clock of the host
-- does not go back and a pause takes its time. It succeeds only with a start of the container that
-- did, and else gives the error of the last start, which is no conflict of ports or not to be tried
-- again or came past the deadline, or the error of the context.
pub start_with_port_retry-IsStarted :
    (h : Host) (id : Text) (retry : Bool) (timeout n : ℕ) (w : h.client.World)
    → Ticks h (try_start h id retry)
    → timeout < n * period
    → IsStarted h id retry (h.now w + timeout) (start_with_port_retry h (suc n) id retry timeout w)
unfolding start_with_port_retry
start_with_port_retry-IsStarted h id retry timeout n w ticks lt =
    end-IsStarted h id retry (h.now w + timeout) _ (poll-Ends h _ _ ticks n w (ground arith))
