-- ===== src/Launch/Image.antt =====
-- internal/forward.go: `ensureHelperImage` and `pullImage`.
use docker_port_forward.Common.{Result, ok, err, ◌||◌, if◌then◌else◌, is_nil}
use docker_port_forward.Text.{Text, codes, text_eq}
use docker_port_forward.Docker.{
  M, Error, DockerError, image_not_present, pulling_image, reading_pull, invalid_pull, wrap,
}
use docker_port_forward.Launch.Machine.{Host}

abbrev pub pull_always : Text
pull_always = codes "always"

abbrev pub pull_missing : Text
pull_missing = codes "missing"

abbrev pub pull_never : Text
pull_never = codes "never"

abbrev pub pulled : Text → Result DockerError (Result Text (Unit {0})) → Result Error (Unit {0})
pulled ref (err e) = err (pulling_image ref e)
pulled ref (ok (err message)) = err (reading_pull message)
pulled ref (ok (ok _)) = ok tt

module _ (h : Host) (ref : Text) where
  unfoldable pub pull_image : M h.client.World (Unit {0})
  pull_image w = let (r, w') = h.image_pull ref w in (pulled ref r, w')

  abbrev pub pull_if_missing : Result DockerError (Unit {0}) → M h.client.World (Unit {0})
  pull_if_missing (ok _) w = (ok tt, w)
  pull_if_missing (err _) w = pull_image w

  -- the policy "missing", or none
  unfoldable pub ensure_missing : M h.client.World (Unit {0})
  ensure_missing w = let (r, w') = h.image_inspect ref w in pull_if_missing r w'

  unfoldable pub ensure_helper_image : Text → M h.client.World (Unit {0})
  ensure_helper_image policy =
      if text_eq policy pull_always
      then pull_image
      else if text_eq policy pull_never
      then wrap (image_not_present ref) (h.image_inspect ref)
      else if text_eq policy pull_missing || is_nil policy
      then ensure_missing
      else λ w. (err (invalid_pull policy), w)
