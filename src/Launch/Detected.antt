-- ===== src/Launch/Detected.antt =====
-- internal/probe.go: what `ProbeListeners` leaves, and what it reports.
use docker_port_forward.Launch.Launched.{forced-IsRemovedBy, IsRemovedBy, RemovesAll}
use docker_port_forward.Launch.Image.{ensure_helper_image}
use docker_port_forward.Launch.Post.{wrap-IfDone, then-IfDone, any_done, IfDone}
use docker_port_forward.Launch.Detect.{
  wait_for_probe, create_probe, probe_listeners, read_listeners, run_probe, after_probe_create,
  probe_config,
}
use docker_port_forward.Common.{◌≡◌, refl, List, [], Result, ok, err}
use docker_port_forward.Text.{Text}
use docker_port_forward.Probe.{Listener, extract_listeners}
use docker_port_forward.Docker.{
  Error, DockerError, creating_probe, wrap, starting_probe, reading_probe_logs, ◌>>=◌, ◌>>◌,
}
use docker_port_forward.Launch.Machine.{Host}

module _ (h : Host) (d : RemovesAll h) where
  -- what the container printed
  abbrev pub IsPrinted : Text → List Listener → Type 0
  IsPrinted id out =
      (before : h.client.World) × (text : Text) × ((h.container_logs id before).0 ≡ ok (ok text))
      × (out ≡ extract_listeners text)

  abbrev pub IsRead : Text → Result Error (List Listener) → Type 0
  IsRead id (ok out) = IsPrinted id out
  IsRead id (err _) = Unit

  abbrev pub IsProbed :
      Result Error (Unit {0})
      → Result DockerError Text
      → Result Error (List Listener) × h.client.World
      → Type 0
  IsProbed (err e) created (r, w) = r ≡ err e
  IsProbed (ok _) (err f) (r, w) = r ≡ err (creating_probe f)
  IsProbed (ok _) (ok id) (r, w) = IsRemovedBy h d h.force_remove id w × IsRead id r

  demuxed-IfDone :
      (id : Text) (logs : Result Text Text) (before w : h.client.World)
      → (h.container_logs id before).0 ≡ ok logs
      → IfDone (λ out _. IsPrinted id out) (read_listeners h logs w)
  demuxed-IfDone id (ok text) before w e = (before, text, e, refl)
  demuxed-IfDone id (err _) before w e = tt

  run_probe-IfDone :
      (id : Text) (w : h.client.World) → IfDone (λ out _. IsPrinted id out) (run_probe h id w)
  unfolding run_probe
  run_probe-IfDone id w =
      then-IfDone (λ _ _. Unit {0}) (λ out _. IsPrinted id out)
        (λ _. wrap reading_probe_logs (h.container_logs id) >>= read_listeners h)
        (wrap starting_probe (h.container_start id) >> wait_for_probe h id) w (any_done _)
        λ _ w' _.
          then-IfDone
            (λ logs _. (before : h.client.World) × ((h.container_logs id before).0 ≡ ok logs))
            (λ out _. IsPrinted id out) (read_listeners h)
            (wrap reading_probe_logs (h.container_logs id)) w'
            (wrap-IfDone _ reading_probe_logs (h.container_logs id) w' λ logs e. (w', e))
            λ logs w'' (before, e). demuxed-IfDone id logs before w'' e

  done-IsRead :
      (id : Text) (r : Result Error (List Listener)) (w : h.client.World)
      → IfDone (λ out _. IsPrinted id out) (r, w)
      → IsRead id r
  done-IsRead id (ok out) w p = p
  done-IsRead id (err _) w p = tt

  created-IsProbed :
      (created : Result DockerError Text) (w : h.client.World)
      → IsProbed (ok tt) created (after_probe_create h created w)
  created-IsProbed (err f) w = refl
  created-IsProbed (ok id) w = (
    forced-IsRemovedBy h d id (run_probe h id w).1,
    done-IsRead id (run_probe h id w).0 (run_probe h id w).1 (run_probe-IfDone id w),
  )

  ensured-IsProbed :
      (target_id helper_image : Text) (w : h.client.World) (r : Result Error (Unit {0}))
      → IsProbed r
          (h.container_create (probe_config target_id helper_image) [] w).0
          (elim r as (λ _. Result Error (List Listener) × h.client.World) [
            | ok _ ↦ create_probe h target_id helper_image w
            | err e ↦ (err e, w)
          ])
  unfolding create_probe
  ensured-IsProbed target_id helper_image w (ok _) =
      created-IsProbed (h.container_create (probe_config target_id helper_image) [] w).0
        (h.container_create (probe_config target_id helper_image) [] w).1
  ensured-IsProbed target_id helper_image w (err e) = refl

-- `ProbeListeners` leaves no probe behind: on every path after the container was created, with a
-- result or with an error, the last step is its forced removal under a context of its own, and
-- after one that counts it is gone. Without the image, or the container, it gives that error. A
-- result is what `ExtractListeners` reads in the logs of the container.
pub probe_listeners-IsProbed :
    (h : Host) (d : RemovesAll h) (target_id helper_image pull_policy : Text) (w : h.client.World)
    → IsProbed h d
        (ensure_helper_image h helper_image pull_policy w).0
        (h.container_create
          (probe_config target_id helper_image)
          []
          (ensure_helper_image h helper_image pull_policy w).1).0
        (probe_listeners h target_id helper_image pull_policy w)
unfolding probe_listeners
probe_listeners-IsProbed h d target_id helper_image pull_policy w =
    ensured-IsProbed h d target_id helper_image (ensure_helper_image h helper_image pull_policy w).1
      (ensure_helper_image h helper_image pull_policy w).0
