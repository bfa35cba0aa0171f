-- ===== src/Entry/Done.antt =====
-- portforward/forward.go: what `Forward` returns.
use docker_port_forward.Launch.{Host}
use docker_port_forward.Entry.Forward.{Forwarded, ForwardError, refused, no_client, failed}
use docker_port_forward.Entry.Checks.{Settings, ParsedSettings, parse_settings}
use docker_port_forward.Docker.{DockerError, Error}
use docker_port_forward.Common.{ℕ, ◌≡◌, ◌⊎◌, Option, Result, ok, err, Bool}
use docker_port_forward.Text.{Text}
use docker_port_forward.Options.{RestartPolicy}
use docker_port_forward.Target.{ResolvedTarget, resolve_target}
use docker_port_forward.Entry.Project.{resolve_project_name}
use docker_port_forward.Entry.Given.{Sound, IsDone, IsFailed}

module _ (validate is_none : RestartPolicy → Bool) (exists : Text → Bool)
    (absolute : Text → Option Text) (h : Host) (n : ℕ) (s : Sound h n) where
  abbrev pub resolution :
      Settings → ParsedSettings → h.client.World → Result Error ResolvedTarget × h.client.World
  resolution o p w =
      resolve_target h.client p.target
        (resolve_project_name exists absolute o.project_name o.files p.target.type) w

  -- what the resolved target is
  abbrev pub IsForwardedBy : Settings → h.client.World → Forwarded → h.client.World → Type 0
  IsForwardedBy o w f w' =
      (p : ParsedSettings) × (target : ResolvedTarget) × (before : h.client.World) × (parse_settings
          validate is_none o
        ≡ ok p)
      × (resolution o p w ≡ (ok target, before))
      × IsDone h n s o p target before f w'

  -- The error of the options, of the client, of the resolution of the target, or of what follows.
  abbrev pub IsRefusedBy :
      Result DockerError (Unit {0})
      → Settings
      → h.client.World
      → ForwardError
      → h.client.World
      → Type 0
  IsRefusedBy opened o w (refused f) w' = (parse_settings validate is_none o ≡ err f) × (w' ≡ w)
  IsRefusedBy opened o w (no_client f) w' = (opened ≡ err f) × (w' ≡ w)
  IsRefusedBy opened o w e w' =
      (p : ParsedSettings) × (parse_settings validate is_none o ≡ ok p)
      × (((f : Error) × (e ≡ failed f) × (resolution o p w ≡ (err f, w')))
          ⊎ ((target : ResolvedTarget) × (before : h.client.World) × (resolution o p w
                ≡ (ok target, before))
              × IsFailed h n s o p target before e w'))
