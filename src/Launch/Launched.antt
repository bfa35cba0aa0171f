-- ===== src/Launch/Launched.antt =====
-- internal/forward.go: what is left of a helper that `StartForward` created.
use docker_port_forward.Docker.{not_started, starting_helper, Error, DockerError, creating_helper}
use docker_port_forward.Common.{
  ◌⊎◌, inl, inr, ℕ, suc, ◌+◌, ◌*◌, ◌<◌, ◌≡◌, refl, Bool, true, Option, none, some, Result, ok, err,
}
use docker_port_forward.Text.{Text}
use docker_port_forward.Helpers.{counts}
use docker_port_forward.Helpers.Removal.{Removes}
use docker_port_forward.Launch.Machine.{Host, ContainerConfig}
use docker_port_forward.Launch.Loops.{
  start_with_port_retry, wait_for_running, port_release_timeout, try_start, try_running,
}
use docker_port_forward.Launch.Helper.{launch_helper, after_create, after_start, after_wait}
use docker_port_forward.Launch.Polled.{Ticks, period}
use docker_port_forward.Launch.Started.{IsStarted, start_with_port_retry-IsStarted}
use docker_port_forward.Launch.Running.{IsUp, IsRunningEnd, wait_for_running-IsRunningEnd}

-- The clock of the host during the loops that wait for a container.
pub record TicksAll (h : Host) : Type 0 where
  pub starting : (id : Text) (retry : Bool) → Ticks h (try_start h id retry)
  pub running : (id : Text) → Ticks h (try_running h id)

-- After a removal that counts, under either context, the container is gone or going.
pub record RemovesAll (h : Host) : Type 1 where
  pub listed : Removes h.client
  pub forced :
      (id : Text) (w : h.client.World)
      → counts h.client (h.force_remove id w).0 ≡ true
      → listed.Gone id (h.force_remove id w).1

module _ (h : Host) (d : RemovesAll h) where
  -- The last step was such a removal of the container; if it counts the container is gone.
  abbrev pub IsRemovedBy :
      (Text → h.client.World → Result DockerError (Unit {0}) × h.client.World)
      → Text
      → h.client.World
      → Type 0
  IsRemovedBy remove id w =
      (before : h.client.World) × ((remove id before).1 ≡ w)
      × (counts h.client (remove id before).0 ≡ true → d.listed.Gone id w)

  pub forced-IsRemovedBy :
      (id : Text) (w : h.client.World) → IsRemovedBy h.force_remove id (h.force_remove id w).1
  forced-IsRemovedBy id w = (w, refl, d.forced id w)

  -- the container was seen running in the last step
  abbrev pub IsSeen : Text → h.client.World → Type 0
  IsSeen id w =
      (before : h.client.World) × IsUp h (h.client.container_inspect id before).0
      × ((h.client.container_inspect id before).1 ≡ w)

  abbrev pub IsLaunched :
      Result DockerError Text → Result Error (Option Text) × h.client.World → Type 0
  IsLaunched created (ok none, w) = ⊥
  IsLaunched created (ok (some id), w) = (created ≡ ok id) × IsSeen id w
  IsLaunched (err f) (err e, w) = e ≡ creating_helper f
  IsLaunched (ok id) (err e, w) =
      ((f : Error) × (e ≡ starting_helper f) × IsRemovedBy h.client.container_remove id w)
      ⊎ ((f : Error) × (e ≡ not_started f) × IsRemovedBy h.force_remove id w)

  after_wait-IsLaunched :
      (id : Text) (deadline : ℕ) (r : Result Error (Option (Unit {0}))) (w : h.client.World)
      → IsRunningEnd h id deadline (r, w)
      → IsLaunched (ok id) (after_wait h id r w)
  after_wait-IsLaunched id deadline (ok none) w e = e
  after_wait-IsLaunched id deadline (ok (some _)) w e = (refl, e)
  after_wait-IsLaunched id deadline (err f) w e = inr (f, refl, forced-IsRemovedBy id w)

  module _ (ticks : TicksAll h) (n : ℕ) (running_timeout : ℕ)
      (short : port_release_timeout < n * period) (enough : running_timeout < n * period) where
    after_start-IsLaunched :
        (id : Text) (retry : Bool) (deadline : ℕ) (r : Result Error (Option (Unit {0})))
        (w : h.client.World)
        → IsStarted h id retry deadline (r, w)
        → IsLaunched (ok id) (after_start h (suc n) id running_timeout r w)
    after_start-IsLaunched id retry deadline (ok none) w e = e
    after_start-IsLaunched id retry deadline (ok (some _)) w e =
        after_wait-IsLaunched id (h.now w + running_timeout)
          (wait_for_running h (suc n) id running_timeout w).0 _
          (wait_for_running-IsRunningEnd h id running_timeout n w (ticks.running id) enough)
    after_start-IsLaunched id retry deadline (err f) w e =
        inl (f, refl, (w, refl, d.listed.counted id w))

    after_create-IsLaunched :
        (retry : Bool) (created : Result DockerError Text) (w : h.client.World)
        → IsLaunched created (after_create h (suc n) retry running_timeout created w)
    after_create-IsLaunched retry (err f) w = refl
    after_create-IsLaunched retry (ok id) w =
        after_start-IsLaunched id retry (h.now w + port_release_timeout)
          (start_with_port_retry h (suc n) id retry port_release_timeout w).0 _
          (start_with_port_retry-IsStarted h id retry port_release_timeout n w
            (ticks.starting id retry) short)

-- The part of `StartForward` that creates the helper ends. On a success the container that was created
-- has been seen running. On an error it was not created, or the last step was its forced removal, and
-- after one that counts it is gone: a removal under the context of the caller when the start failed,
-- and under one of its own when the container did not come to run. The clock of the host does not go
-- back, and the fuel is above the rounds that the two timeouts have.
pub launch_helper-IsLaunched :
    (h : Host) (d : RemovesAll h) (ticks : TicksAll h) (n : ℕ) (config : ContainerConfig)
    (name : Text) (retry : Bool) (running_timeout : ℕ) (w : h.client.World)
    → port_release_timeout < n * period
    → running_timeout < n * period
    → IsLaunched h d
        (h.container_create config name w).0
        (launch_helper h (suc n) config name retry running_timeout w)
unfolding launch_helper
launch_helper-IsLaunched h d ticks n config name retry running_timeout w short enough =
    after_create-IsLaunched h d ticks n running_timeout short enough retry
      (h.container_create config name w).0 (h.container_create config name w).1
