-- ===== src/Entry/Given.antt =====
-- portforward/forward.go: what `Forward` returns once the target is resolved.
use docker_port_forward.Launch.{
  with_defaults, Host, ForwardResult, start_forward, probe_listeners, port_release_timeout,
  or_timeout, default_running_timeout,
}
use docker_port_forward.Entry.Forward.{
  Forwarded, ForwardError, refused, no_client, failed, probing, none_detected, forwarded_of,
  finished_with, listened_pair, forward_input, forward_pairs, forward_detected, forward_given,
}
use docker_port_forward.Entry.Checks.{Settings, ParsedSettings}
use docker_port_forward.Docker.{Error}
use docker_port_forward.Launch.Forwarded.{start_forward-IsForwarded}
use docker_port_forward.Common.{
  sym, ℕ, suc, ◌*◌, ◌<◌, ◌≡◌, ◌≢◌, ◌⊎◌, inl, inr, refl, Option, none, some, List, [], ◌∷◌, Result,
  ok, err, map,
}
use docker_port_forward.Text.{Text}
use docker_port_forward.Ports.{PortPair}
use docker_port_forward.Probe.{Listener}
use docker_port_forward.Target.{ResolvedTarget}
use docker_port_forward.Start.Dwindling.{rounds}
use docker_port_forward.Launch.Polled.{period}
use docker_port_forward.Launch.Post.{IfDone, Given}
use docker_port_forward.Launch.Served.{Reliable, IsForwarded}

-- A host that is reliable for every target, and has at most `n` rounds of the loop for each.
pub record Sound (h : Host) (n : ℕ) : Type 1 where
  pub reliable : (id : Text) → Reliable h id
  pub bounded :
      (id : Text) (w : h.client.World) → rounds h.client id (reliable id).dwindles w < suc n
  pub short : port_release_timeout < n * period

-- There is a result, of which `Q` holds, or an error, of which `R` holds.
abbrev pub Ends :
    {W : Type 0}
    → (Forwarded → W → Type 0)
    → (ForwardError → W → Type 0)
    → Result ForwardError (Option Forwarded) × W
    → Type 0
Ends Q R (ok none, w) = ⊥
Ends Q R (ok (some f), w) = Q f w
Ends Q R (err e, w) = R e w

pub Ends-mono :
    {W : Type 0} (P Q : Forwarded → W → Type 0) (R S : ForwardError → W → Type 0)
    → ((f : Forwarded) (w : W) → P f w → Q f w)
    → ((e : ForwardError) (w : W) → R e w → S e w)
    → (r : Result ForwardError (Option Forwarded) × W) → Ends P R r
    → Ends Q S r
Ends-mono P Q R S k l (ok none, w) e = e
Ends-mono P Q R S k l (ok (some f), w) e = k f w e
Ends-mono P Q R S k l (err f, w) e = l f w e

module _ (h : Host) (n : ℕ) (s : Sound h n) (o : Settings) (p : ParsedSettings) where
  -- The pairs that were given, or those of the listeners that were detected when none were, with
  -- the state in which `StartForward` is called for them.
  abbrev pub AreRequested :
      ResolvedTarget → h.client.World → List PortPair → h.client.World → Type 0
  AreRequested target w pairs w1 =
      ((pairs ≡ p.pairs) × (w1 ≡ w))
      ⊎ ((p.pairs ≡ [])
          × ((listeners : List Listener) × (pairs ≡ map listened_pair listeners)
              × (probe_listeners h target.container_id o.helper_image o.pull w
                  ≡ (ok listeners, w1))))

  abbrev pub IsDone : ResolvedTarget → h.client.World → Forwarded → h.client.World → Type 0
  IsDone target w f w' =
      (pairs : List PortPair) × (w1 : h.client.World) × (r : ForwardResult) × AreRequested target w
        pairs w1
      × (pairs ≢ [])
      × (start_forward h (suc n) (forward_input o p target pairs) w1 ≡ (ok (some r), w'))
      × (f ≡ forwarded_of o.addresses r)
      × IsForwarded h (forward_input o p target pairs) (s.reliable target.container_id)
          (with_defaults (forward_input o p target pairs)) r w'

  -- The error of `ProbeListeners`, when no pairs were given, that it detected none, or the error of
  -- `StartForward` for the pairs that were given or detected.
  abbrev pub IsFailed : ResolvedTarget → h.client.World → ForwardError → h.client.World → Type 0
  IsFailed target w (probing f) w' =
      (p.pairs ≡ []) × (probe_listeners h target.container_id o.helper_image o.pull w ≡ (err f, w'))
  IsFailed target w none_detected w' =
      (p.pairs ≡ []) × (probe_listeners h target.container_id o.helper_image o.pull w ≡ (ok [], w'))
  IsFailed target w (failed f) w' =
      (pairs : List PortPair) × (w1 : h.client.World) × AreRequested target w pairs w1
      × (pairs ≢ [])
      × (start_forward h (suc n) (forward_input o p target pairs) w1 ≡ (err f, w'))
  IsFailed target w (refused f) w' = ⊥
  IsFailed target w (no_client f) w' = ⊥

  module _ (enough : or_timeout default_running_timeout o.running_timeout < n * period)
      (target : ResolvedTarget) (w : h.client.World) where
    finished_with-Ends :
        (pairs : List PortPair) (w1 : h.client.World) (r : Result Error (Option ForwardResult))
        (w' : h.client.World)
        → AreRequested target w pairs w1
        → pairs ≢ []
        → start_forward h (suc n) (forward_input o p target pairs) w1 ≡ (r, w')
        → IfDone
            (Given (
              IsForwarded h
                (forward_input o p target pairs)
                (s.reliable target.container_id)
                (with_defaults (forward_input o p target pairs))))
            (r, w')
        → Ends (IsDone target w) (IsFailed target w) (finished_with o.addresses r, w')
    finished_with-Ends pairs w1 (ok none) w' a some_pair e d = d
    finished_with-Ends pairs w1 (ok (some r)) w' a some_pair e d =
        (pairs, w1, r, a, some_pair, e, refl, d)
    finished_with-Ends pairs w1 (err f) w' a some_pair e d = (pairs, w1, a, some_pair, e)

    forward_pairs-Ends :
        (pairs : List PortPair) (w1 : h.client.World)
        → AreRequested target w pairs w1
        → pairs ≢ []
        → Ends (IsDone target w) (IsFailed target w) (forward_pairs h (suc n) o p target pairs w1)
    unfolding forward_pairs
    forward_pairs-Ends pairs w1 a some_pair =
        finished_with-Ends pairs w1 (start_forward h (suc n) (forward_input o p target pairs) w1).0
          (start_forward h (suc n) (forward_input o p target pairs) w1).1 a some_pair refl
          (start_forward-IsForwarded h (forward_input o p target pairs)
            (s.reliable target.container_id) n w1 s.short enough (s.bounded target.container_id))

    detected-Ends :
        (r : Result Error (List Listener)) (w1 : h.client.World)
        → p.pairs ≡ []
        → probe_listeners h target.container_id o.helper_image o.pull w ≡ (r, w1)
        → Ends (IsDone target w) (IsFailed target w) (forward_detected h (suc n) o p target r w1)
    detected-Ends (err f) w1 none_given e = (none_given, e)
    detected-Ends (ok []) w1 none_given e = (none_given, e)
    detected-Ends (ok (l ∷ listeners)) w1 none_given e =
        forward_pairs-Ends (map listened_pair (l ∷ listeners)) w1
          (inr (none_given, (l ∷ listeners, refl, e))) (λ k. cc)

    pub given-Ends :
        (pairs : List PortPair)
        → p.pairs ≡ pairs
        → Ends (IsDone target w) (IsFailed target w) (forward_given h (suc n) o p target pairs w)
    given-Ends (pair ∷ pairs) e = forward_pairs-Ends (pair ∷ pairs) w (inl (sym e, refl)) (λ k. cc)
    given-Ends [] e = detected-Ends _ _ e refl
