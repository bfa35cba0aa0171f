-- ===== src/Helpers/Picked.antt =====
-- internal/forward.go: the network that `pickTargetNetwork` returns.
use docker_port_forward.Common.{
  ◌≢◌, ◌||◌, ◌≡◌, ◌⊎◌, inl, inr, refl, true, false, Option, some, Option-cases, List, [], ◌∷◌, ok,
  err, Result-cases, ok-injective, sym, ap, ◌∙◌, Bool-cases, arith, subst,
}
use docker_port_forward.Text.{Text, text_eq, codes}
use docker_port_forward.Netip.{Addr}
use docker_port_forward.Docker.{
  unusable_network, not_attached, no_address_on, ◌>>=◌, network_is_internal, inspecting_network,
  Client, Inspect,
}
use docker_port_forward.Helpers.Check.{attached_to, bridge}
use docker_port_forward.Helpers.Network.{
  target_address, user_defined, check_requested, pick_requested_network, pick_target_network,
  pick_in,
}
use docker_port_forward.Helpers.Staleness.{Steady}
use docker_port_forward.Helpers.Best.{IsBest, IsAsked, network_found, network_failed, best}

module _ (c : Client) (d : Steady c) (w : c.World) (info : Inspect) where
  check_requested-IsAsked :
      (requested found network addr : Text)
      → text_eq requested (codes "host") ≡ false
      → text_eq requested (codes "none") ≡ false
      → target_address info requested ≡ some found
      → (check_requested c requested found w).0 ≡ ok (network, addr)
      → IsAsked info (d.internal w) requested network addr
  unfolding check_requested
  check_requested-IsAsked requested found network addr hh hn e h =
      let this : (text_eq requested bridge ≡ true) ⊎ (d.internal w requested ≡ ok false)
          → ◌≡◌ {A = Text × Text} (requested, found) (network, addr)
          → IsAsked info (d.internal w) requested network addr =
        λ fine same.
          subst (λ r. IsAsked info (d.internal w) requested r.0 r.1) same (refl, hh, hn, e, fine) in
      elim (Bool-cases (text_eq requested bridge)) [
        | inl default ↦
            let opened : check_requested c requested found w ≡ (ok (requested, found), w) =
              rw (check_requested, default) refl in
            this (inl default) (ok-injective (ap (λ r. r.0) (sym opened) ∙ h))
        | inr other ↦ elim (Result-cases (d.internal w requested)) [
          | inl (false, i) ↦
              let opened : (check_requested c requested found w).0 ≡ ok (requested, found) =
                rw (check_requested, other, ◌>>=◌, network_found c d w info requested false i)
                  refl in
              this (inr i) (ok-injective (sym opened ∙ h))
          | inl (true, i) ↦
              let opened : (check_requested c requested found w).0
                  ≡ err (network_is_internal requested) =
                rw (check_requested, other, ◌>>=◌, network_found c d w info requested true i)
                  refl in
              absurd (ground (arith, opened))
          | inr (f, i) ↦
              let opened : (check_requested c requested found w).0
                  ≡ err (inspecting_network requested f) =
                rw (check_requested, other, ◌>>=◌, network_failed c d w info requested f i) refl in
              absurd (ground (arith, opened))
        ]
      ]

  pick_requested_network-IsAsked :
      (requested network addr : Text)
      → (pick_requested_network c info requested w).0 ≡ ok (network, addr)
      → IsAsked info (d.internal w) requested network addr
  unfolding pick_requested_network
  pick_requested_network-IsAsked requested network addr h =
      let unusable = text_eq requested (codes "host") || text_eq requested (codes "none") in
      elim (Bool-cases unusable) [
        | inl reserved ↦
            let opened : (pick_requested_network c info requested w).0
                ≡ err (unusable_network requested) =
              rw (pick_requested_network, reserved) refl in
            absurd (ground (arith, opened))
        | inr usable ↦ elim (Bool-cases (attached_to info requested)) [
          | inr away ↦
              let opened : (pick_requested_network c info requested w).0
                  ≡ err (not_attached requested) =
                rw (pick_requested_network, usable, away) refl in
              absurd (ground (arith, opened))
          | inl attached ↦ elim (Option-cases (target_address info requested)) [
            | inl e ↦
                let opened : (pick_requested_network c info requested w).0
                    ≡ err (no_address_on requested) =
                  rw (pick_requested_network, usable, attached, e) refl in
                absurd (ground (arith, opened))
            | inr (found, e) ↦
                let opened : pick_requested_network c info requested w
                    ≡ check_requested c requested found w =
                  rw (pick_requested_network, usable, attached, e) refl in
                check_requested-IsAsked requested found network addr (ground (arith, usable))
                  (ground (arith, usable)) e (ap (λ r. r.0) (sym opened) ∙ h)
          ]
        ]
      ]

  pick_in-IsBest :
      (networks : List (Text × Option Addr)) (requested network addr : Text)
      → (pick_in c info requested (some networks) w).0 ≡ ok (network, addr)
      → ((requested ≡ []) × IsBest info (d.internal w) (user_defined networks) network addr)
        ⊎ ((requested ≢ []) × IsAsked info (d.internal w) requested network addr)
  pick_in-IsBest [] requested network addr h = cc
  pick_in-IsBest (n ∷ networks) [] network addr h =
      inl (refl, best c d w info (user_defined (n ∷ networks)) network addr h)
  pick_in-IsBest (n ∷ networks) (b ∷ name) network addr h =
      inr ((λ e. cc), pick_requested_network-IsAsked (b ∷ name) network addr h)

-- The network that is picked, on a daemon whose answers do not change. Without a request it is the
-- user-defined network of the target that comes first by name among those with an address to dial
-- that are not internal, or, when there is none, the default bridge if it has an address. With a
-- request it is the one asked for, which is not `host` or `none`, has an address to dial, and is the
-- default bridge or not internal. The second result is what the helper dials there.
pub pick_target_network-IsBest :
    (c : Client) (d : Steady c) (info : Inspect) (networks : List (Text × Option Addr))
    (requested : Text) (w : c.World) (network addr : Text)
    → info.networks ≡ some networks
    → (pick_target_network c info requested w).0 ≡ ok (network, addr)
    → ((requested ≡ []) × IsBest info (d.internal w) (user_defined networks) network addr)
      ⊎ ((requested ≢ []) × IsAsked info (d.internal w) requested network addr)
unfolding pick_target_network
pick_target_network-IsBest c d info networks requested w network addr e h =
    pick_in-IsBest c d w info networks requested network addr
      (subst (λ o. (pick_in c info requested o w).0 ≡ ok (network, addr)) e h)
