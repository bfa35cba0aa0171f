-- ===== src/Helpers/Remove.antt =====
-- internal/forward.go: `ListHelpers`, `RemoveHelpers` and `CleanupStaleHelpers`. Warnings that are
-- only logged are left out.
use docker_port_forward.Common.{
  ℕ, suc, Bool, true, ◌||◌, List, [], ◌∷◌, if◌then◌else◌, Result, ok, err, is_nil, map,
}
use docker_port_forward.Text.{Text, codes, contains, to_lower}
use docker_port_forward.Docker.{Client, Summary, DockerError, is_no_such_container}
use docker_port_forward.Helpers.Labels.{label_port_forward, label_target}

-- An error after which the container is gone or going.
unfoldable pub is_tolerated : DockerError → Bool
is_tolerated e =
    is_no_such_container e || contains (to_lower e.message) (codes "already in progress")

unfoldable pub helper_filters : Text → List (Text × Text)
helper_filters target_id =
    (label_port_forward, codes "true")
    ∷ (if is_nil target_id then [] else (label_target, target_id) ∷ [])

module _ (c : Client) where
  unfoldable pub list_helpers : Text → c.World → Result DockerError (List Summary) × c.World
  list_helpers target_id w = c.container_list (helper_filters target_id) w

  -- whether a removal counts
  abbrev pub counts : Result DockerError (Unit {0}) → Bool
  counts (ok _) = true
  counts (err e) = is_tolerated e

  unfoldable pub remove_helpers : List Text → c.World → ℕ × c.World
  remove_helpers [] w = (0, w)
  remove_helpers (id ∷ ids) w =
      let (r, w1) = c.container_remove id w in
      let (n, w2) = remove_helpers ids w1 in (if counts r then suc n else n, w2)

  -- An error of the list is not looked at.
  unfoldable pub cleanup_stale_helpers : Text → c.World → c.World
  cleanup_stale_helpers target_id w =
      let (r, w') = list_helpers target_id w in
      elim r [ err e ↦ w' | ok list ↦ (remove_helpers (map (λ s. s.id) list) w').1 ]
