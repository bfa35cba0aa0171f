-- ===== src/Launch/Helper.antt =====
-- internal/forward.go: creating the helper, starting it, waiting for it and stopping it, in
-- `StartForward`, `stopAndRemove`, `autoName` and `randomHex`. What is only logged is left out.
use docker_port_forward.Common.{
  ◌-◌, ℕ, ◌/◌, ◌%◌, ◌+◌, Bool, Option, none, some, List, [], ◌∷◌, ◌++◌, Result, ok, err, pos,
  if◌then◌else◌, is_nil, ltb, take,
}
use docker_port_forward.Text.{Text, codes, itoa, trim_prefix}
use docker_port_forward.Docker.{
  M, Error, DockerError, creating_helper, starting_helper, not_started,
}
use docker_port_forward.Helpers.{slash}
use docker_port_forward.Launch.Machine.{Host, ContainerConfig}
use docker_port_forward.Launch.Loops.{start_with_port_retry, wait_for_running, port_release_timeout}

abbrev pub hex_letter : ℕ → ℕ
hex_letter n = if ltb n 10 then b'0' + n else b'a' + (n - 10)

-- `hex.EncodeToString`
unfoldable pub hex_text : List ℕ → Text
hex_text [] = []
hex_text (b ∷ bytes) = hex_letter (b / 16) ∷ hex_letter (b % 16) ∷ hex_text bytes

-- the container's name in the helper's: at most 16 characters, and never empty
unfoldable pub name_base : Text → Text
name_base container_name =
    let base = trim_prefix slash container_name in
    take 16 (if is_nil base then codes "target" else base)

module _ (h : Host) where
  abbrev pub random_text : Option (List ℕ) → h.client.World → Text
  random_text none w = itoa (pos (h.now w))
  random_text (some bytes) w = hex_text bytes

  unfoldable pub random_hex : ℕ → h.client.World → Text × h.client.World
  random_hex n w = let (r, w') = h.random_bytes n w in (random_text r w', w')

  unfoldable pub auto_name : Text → h.client.World → Text × h.client.World
  auto_name container_name w =
      let (t, w') = random_hex 4 w in
      (codes "port-forward-" ++ (name_base container_name ++ (b'-' ∷ t)), w')

  -- The removals after an error, whose own errors are not looked at: when the start failed, under the
  -- context of the caller, and when the helper does not come to run, under one of its own.
  abbrev pub remove_unstarted : Text → Error → M h.client.World (Option Text)
  remove_unstarted id e w = let (r, w') = h.client.container_remove id w in (err e, w')

  abbrev pub remove_not_running : Text → Error → M h.client.World (Option Text)
  remove_not_running id e w = let (r, w') = h.force_remove id w in (err e, w')

  abbrev pub after_wait : Text → Result Error (Option (Unit {0})) → M h.client.World (Option Text)
  after_wait id (ok none) w = (ok none, w)
  after_wait id (ok (some _)) w = (ok (some id), w)
  after_wait id (err e) w = remove_not_running id (not_started e) w

  abbrev pub after_start :
      ℕ → Text → ℕ → Result Error (Option (Unit {0})) → M h.client.World (Option Text)
  after_start fuel id running_timeout (ok none) w = (ok none, w)
  after_start fuel id running_timeout (ok (some _)) w =
      let (r, w') = wait_for_running h fuel id running_timeout w in after_wait id r w'
  after_start fuel id running_timeout (err e) w = remove_unstarted id (starting_helper e) w

  abbrev pub after_create : ℕ → Bool → ℕ → Result DockerError Text → M h.client.World (Option Text)
  after_create fuel retry running_timeout (err e) w = (err (creating_helper e), w)
  after_create fuel retry running_timeout (ok id) w =
      let (r, w') = start_with_port_retry h fuel id retry port_release_timeout w in
      after_start fuel id running_timeout r w'

  -- The id of the helper, once it runs.
  unfoldable pub launch_helper :
      ℕ → ContainerConfig → Text → Bool → ℕ → M h.client.World (Option Text)
  launch_helper fuel config name retry running_timeout w =
      let (r, w') = h.container_create config name w in after_create fuel retry running_timeout r w'

  unfoldable pub stop_and_remove : Text → h.client.World → h.client.World
  stop_and_remove id w =
      let (stopped, w1) = h.container_stop id w in let (removed, w2) = h.force_remove id w1 in w2
