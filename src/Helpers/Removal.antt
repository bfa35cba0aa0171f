-- ===== src/Helpers/Removal.antt =====
-- internal/forward.go: the count that `RemoveHelpers` returns.
use docker_port_forward.Common.{
  ◌≤◌, ◌≡◌, true, List, [], ◌∷◌, All, arith, length, Bool-cases, inl, inr,
}
use docker_port_forward.Text.{Text}
use docker_port_forward.Docker.{Client}
use docker_port_forward.Helpers.Remove.{counts, remove_helpers}

-- What a daemon does on a removal: after one that counts the container is gone or going, and no
-- removal brings a container back.
pub record Removes (c : Client) : Type 1 where
  pub Gone : Text → c.World → Type 0
  pub counted :
      (id : Text) (w : c.World)
      → counts c (c.container_remove id w).0 ≡ true
      → Gone id (c.container_remove id w).1
  pub stays_gone : (id j : Text) (w : c.World) → Gone j w → Gone j (c.container_remove id w).1

module _ (c : Client) where
  pub remove_helpers-le : (ids : List Text) (w : c.World) → (remove_helpers c ids w).0 ≤ length ids
  unfolding remove_helpers
  remove_helpers-le [] w = omega arith
  remove_helpers-le (id ∷ ids) w = ground (arith, remove_helpers-le ids (c.container_remove id w).1)

  module _ (d : Removes c) where
    stays_gone-remove_helpers :
        (ids : List Text) (j : Text) (w : c.World)
        → d.Gone j w
        → d.Gone j (remove_helpers c ids w).1
    unfolding remove_helpers
    stays_gone-remove_helpers [] j w h = h
    stays_gone-remove_helpers (id ∷ ids) j w h =
        stays_gone-remove_helpers ids j (c.container_remove id w).1 (d.stays_gone id j w h)

    all_gone :
        (ids : List Text) (w : c.World)
        → (remove_helpers c ids w).0 ≡ length ids
        → All (λ id. d.Gone id (remove_helpers c ids w).1) ids
    unfolding remove_helpers
    all_gone [] w e = tt
    all_gone (id ∷ ids) w e = elim (Bool-cases (counts c (c.container_remove id w).0)) [
      | inl done ↦ (
        stays_gone-remove_helpers ids id _ (d.counted id w done),
        all_gone ids (c.container_remove id w).1 (ground arith),
      )
      | inr failed ↦ absurd (ground (arith, remove_helpers-le ids (c.container_remove id w).1))
    ]

-- `RemoveHelpers` counts at most the helpers that it is given, and when it counts all of them each
-- is gone or going at the end, on a daemon where a removal that counts has that effect and none
-- brings a container back.
pub remove_helpers-all_gone :
    (c : Client) (d : Removes c) (ids : List Text) (w : c.World)
    → ((remove_helpers c ids w).0 ≤ length ids)
      × ((remove_helpers c ids w).0 ≡ length ids
          → All (λ id. d.Gone id (remove_helpers c ids w).1) ids)
remove_helpers-all_gone c d ids w = (remove_helpers-le c ids w, all_gone c d ids w)
