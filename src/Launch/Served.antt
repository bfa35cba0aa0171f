-- ===== src/Launch/Served.antt =====
-- internal/forward.go: what holds once the helper of `StartForward` is created.
use docker_port_forward.Launch.Start.{
  result_of, ForwardInput, ForwardResult, Plan, request_of, serve, create_helper, or_timeout,
  default_running_timeout, helper_spec,
}
use docker_port_forward.Launch.Machine.{Host}
use docker_port_forward.Common.{
  ℕ, suc, ◌*◌, ◌<◌, ◌≡◌, Bool, true, false, Option, none, some, List, Result, ok, err,
  if◌then◌else◌,
}
use docker_port_forward.Text.{Text}
use docker_port_forward.Ports.{PortPair}
use docker_port_forward.Docker.{Summary, Error, DockerError, ◌>>=◌}
use docker_port_forward.Start.{reused}
use docker_port_forward.Helpers.{pick_target_network}
use docker_port_forward.Launch.Config.{build_helper_container_config}
use docker_port_forward.Start.Settled.{IsSettled}
use docker_port_forward.Start.Dwindling.{Dwindles}
use docker_port_forward.Launch.Loops.{port_release_timeout, try_ports}
use docker_port_forward.Launch.Helper.{launch_helper, stop_and_remove}
use docker_port_forward.Launch.Polled.{Ticks, period}
use docker_port_forward.Launch.Launched.{
  TicksAll, RemovesAll, IsSeen, IsRemovedBy, IsLaunched, launch_helper-IsLaunched,
  forced-IsRemovedBy,
}
use docker_port_forward.Launch.Resolved.{Assigns, AreResolved}
use docker_port_forward.Launch.Post.{IfDone, Given, then-IfDone}

-- What the program relies on: ports that the host assigns are not zero, a removal that counts is one,
-- the clock does not go back, and the daemon answers without changing.
pub record Reliable (h : Host) (target_id : Text) : Type 1 where
  pub assigns : Assigns h
  pub removes : RemovesAll h
  pub ticks : TicksAll h
  pub ticks_ports :
      (defaults : List Text) (pairs : List PortPair) → Ticks h (try_ports h defaults pairs)
  pub dwindles : Dwindles h.client target_id

-- `filled` is `input` with the default values in it, from which the container is configured.
module _ (h : Host) (input : ForwardInput) (d : Reliable h input.target.container_id)
    (filled : ForwardInput) where
  -- The plan is for the pairs and for an inspection of the target, and has the network and the
  -- address that `pickTargetNetwork` gives for that.
  abbrev pub IsPlanned : List PortPair → Plan → Type 0
  IsPlanned pairs plan =
      (plan.pairs ≡ pairs)
      × ((w : h.client.World) × ((h.client.container_inspect input.target.container_id w).0
            ≡ ok plan.info))
      × ((w : h.client.World) × ((pick_target_network h.client plan.info input.network w).0
            ≡ ok (plan.network, plan.address)))

  -- The container was created, under the helper's name, with the configuration for such a plan.
  abbrev pub IsCreated : ForwardResult → Type 0
  IsCreated r =
      (plan : Plan) × (session : Text) × (w : h.client.World) × IsPlanned r.pairs plan
      × ((h.container_create
            (build_helper_container_config h.parse_port
              (helper_spec h 0 filled plan r.helper_name session))
            r.helper_name w).0
          ≡ ok r.helper_id)

  -- A helper that existed covers a requested pair; a new one is the container that was created, and
  -- was seen running: in the last step if it is detached, and else its removal was the last step.
  abbrev pub IsServed : Bool → Bool → ForwardResult → h.client.World → Type 0
  IsServed true detach r w =
      (s : Summary) × (r.helper_id ≡ s.id)
      × IsSettled h.client (request_of input r.pairs) d.dwindles (ok (some (reused s)), w)
  IsServed false true r w = IsCreated r × IsSeen h d.removes r.helper_id w
  IsServed false false r w =
      IsCreated r
      × ((running : h.client.World) × IsSeen h d.removes r.helper_id running)
      × IsRemovedBy h d.removes h.force_remove r.helper_id w

  abbrev pub IsForwarded : ForwardResult → h.client.World → Type 0
  IsForwarded r w = AreResolved input.pairs r.pairs × IsServed r.existing input.detach r w

module _ (h : Host) (input : ForwardInput) (d : Reliable h input.target.container_id) where
  module _ (n : ℕ) (short : port_release_timeout < n * period)
      (enough : or_timeout default_running_timeout input.running_timeout < n * period) where
    served :
        (detach : Bool) (plan : Plan) (name id : Text) (w : h.client.World)
        → AreResolved input.pairs plan.pairs
        → IsCreated h input d input (result_of plan name id)
        → IsSeen h d.removes id w
        → IfDone
            (Given (λ r w.
              AreResolved input.pairs r.pairs × IsServed h input d input r.existing detach r w))
            (if detach
              then (ok (some (result_of plan name id)), w)
              else (ok (some (result_of plan name id)), stop_and_remove h id (h.context_done w)))
    unfolding stop_and_remove
    served true plan name id w resolved new seen = (resolved, (new, seen))
    served false plan name id w resolved new seen = (
      resolved,
      (
        new,
        (w, seen),
        forced-IsRemovedBy h d.removes id (h.container_stop id (h.context_done w)).1,
      ),
    )

    launched_id-IfDone :
        (created : Result DockerError Text) (r : Result Error (Option Text) × h.client.World)
        → IsLaunched h d.removes created r
        → IfDone (Given (λ id w. (created ≡ ok id) × IsSeen h d.removes id w)) r
    launched_id-IfDone created (ok none, w) e = e
    launched_id-IfDone created (ok (some id), w) e = e
    launched_id-IfDone (ok id) (err f, w) e = tt
    launched_id-IfDone (err f) (err g, w) e = tt

    serve-IfDone :
        (plan : Plan) (name session : Text) (w0 : h.client.World)
        → AreResolved input.pairs plan.pairs
        → IsPlanned h input d input plan.pairs plan
        → (o : Option Text) (w : h.client.World)
        → Given
            (λ id w.
              ((h.container_create
                  (build_helper_container_config h.parse_port
                    (helper_spec h (suc n) input plan name session))
                  name
                  w0).0
                ≡ ok id)
              × IsSeen h d.removes id w)
            o
            w
        → IfDone (Given (IsForwarded h input d input)) (serve h (suc n) input plan name o w)
    serve-IfDone plan name session w0 resolved planned none w e = e
    serve-IfDone plan name session w0 resolved planned (some id) w (made, seen) =
        served input.detach plan name id w resolved (plan, session, w0, planned, made) seen

    launched-IfDone :
        (plan : Plan) (name session : Text) (retry : Bool) (w : h.client.World)
        → AreResolved input.pairs plan.pairs
        → IsPlanned h input d input plan.pairs plan
        → IfDone (Given (IsForwarded h input d input)) (
            (launch_helper h
                  (suc n)
                  (build_helper_container_config h.parse_port
                    (helper_spec h (suc n) input plan name session))
                  name
                  retry
                  (or_timeout default_running_timeout input.running_timeout)
                >>= serve h (suc n) input plan name)
              w)
    launched-IfDone plan name session retry w resolved planned =
        let config =
          build_helper_container_config h.parse_port
            (helper_spec h (suc n) input plan name session) in
        then-IfDone
          (Given
            (λ id w'. ((h.container_create config name w).0 ≡ ok id) × IsSeen h d.removes id w'))
          (Given (IsForwarded h input d input)) (serve h (suc n) input plan name)
          (launch_helper h (suc n) config name retry
            (or_timeout default_running_timeout input.running_timeout))
          w
          (launched_id-IfDone (h.container_create config name w).0 _ (
            launch_helper-IsLaunched h d.removes d.ticks n config name retry
              (or_timeout default_running_timeout input.running_timeout) w short enough))
          (serve-IfDone plan name session w resolved planned)

    pub create_helper-IfDone :
        (plan : Plan) (w : h.client.World)
        → AreResolved input.pairs plan.pairs
        → IsPlanned h input d input plan.pairs plan
        → IfDone (Given (IsForwarded h input d input)) (create_helper h (suc n) input plan w)
    unfolding create_helper
    create_helper-IfDone plan w resolved planned = launched-IfDone plan _ _ _ _ resolved planned
