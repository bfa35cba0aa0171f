-- ===== src/Start/Dwindling.antt =====
-- internal/forward.go: the daemon, as the loop of `StartForward` over existing helpers relies on it.
use docker_port_forward.Common.{
  In, ◌+◌, ◌≤◌, ◌≡◌, ◌<◌, true, List, ℕ, Result, ok, err, length, arith,
}
use docker_port_forward.Text.{Text}
use docker_port_forward.Docker.{Client, Summary, DockerError}
use docker_port_forward.Helpers.{list_helpers, counts, is_tolerated}
use docker_port_forward.Helpers.Staleness.{Steady}

abbrev pub size : Result DockerError (List Summary) → ℕ
size (ok list) = length list
size (err _) = 0

-- A daemon that answers without changing. A removal that succeeds takes a listed helper off the list.
-- One that is tolerated although it failed, since another removal of the helper is in progress, may
-- leave it listed; `pending` is how many more of these the daemon answers before that one is done.
pub record Dwindles (c : Client) (target_id : Text) : Type 1 where
  pub helpers : c.World → Result DockerError (List Summary)
  pub pending : c.World → ℕ
  pub lists : (w : c.World) → list_helpers c target_id w ≡ (helpers w, w)
  pub steady : Steady c
  pub deleted :
      (s : Summary) (list : List Summary) (w : c.World)
      → helpers w ≡ ok list
      → In s list
      → (c.container_remove s.id w).0 ≡ ok tt
      → (size (helpers (c.container_remove s.id w).1) < length list)
        × (pending (c.container_remove s.id w).1 ≤ pending w)
  pub in_progress :
      (s : Summary) (list : List Summary) (w : c.World) (e : DockerError)
      → helpers w ≡ ok list
      → In s list
      → (c.container_remove s.id w).0 ≡ err e
      → is_tolerated e ≡ true
      → (size (helpers (c.container_remove s.id w).1) ≤ length list)
        × (pending (c.container_remove s.id w).1 < pending w)

-- The helpers of the target, and the removals in progress: the rounds that the loop has at most,
-- besides the last.
abbrev pub rounds : (c : Client) (target_id : Text) → Dwindles c target_id → c.World → ℕ
rounds c target_id d w = size (d.helpers w) + d.pending w

module _ (c : Client) (target_id : Text) (d : Dwindles c target_id) where
  pub removal-rounds :
      (s : Summary) (list : List Summary) (w : c.World) (r : Result DockerError (Unit {0}))
      → d.helpers w ≡ ok list
      → In s list
      → (c.container_remove s.id w).0 ≡ r
      → counts c r ≡ true
      → rounds c target_id d (c.container_remove s.id w).1 < length list + d.pending w
  removal-rounds s list w (ok _) hl hi hr h =
      let (fewer, less) = d.deleted s list w hl hi hr in omega arith
  removal-rounds s list w (err e) hl hi hr h =
      let (fewer, less) = d.in_progress s list w e hl hi hr h in omega arith
