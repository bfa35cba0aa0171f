-- ===== src/Library/Cleanup.antt =====
-- portforward/cleanup.go: `Cleanup`.
use docker_port_forward.Common.{ℕ, Bool, ◌||◌, List, ok, err, is_nil, map, if◌then◌else◌}
use docker_port_forward.Text.{Text}
use docker_port_forward.Docker.{Client, M}
use docker_port_forward.Helpers.{remove_helpers}
use docker_port_forward.Library.Find.{Helper, find_helpers}

pub record CleanupResult : Type 0 where
  pub helpers : List Helper
  pub removed : ℕ

module _ (c : Client) where
  abbrev pub remove_found : Bool → List Helper → M c.World CleanupResult
  remove_found dry_run helpers w =
      if is_nil helpers || dry_run
      then (ok (record { helpers = helpers; removed = 0 }), w)
      else let (n, w') = remove_helpers c (map (λ h. h.id) helpers) w in
        (ok (record { helpers = helpers; removed = n }), w')

  unfoldable pub cleanup : Text → Text → Bool → Bool → M c.World CleanupResult
  cleanup name target stale_only dry_run w =
      let (r, w') = find_helpers c name target stale_only w in
      elim r [ err e ↦ (err e, w') | ok helpers ↦ remove_found dry_run helpers w' ]
