-- ===== src/Entry/Tests.antt =====
-- `Forward` on the host of Launch/Example.
use docker_port_forward.Entry.Project.{
  compose_file, first_file, clean_part, clean_parts, resolve_project_name, base_of_dir,
}
use docker_port_forward.Text.{text_eq, split, cut_last, Text, codes}
use docker_port_forward.Common.{
  ◌≡◌, ◌↔◌, ◌⊎◌, refl, Bool, true, false, Option, none, some, [], ◌∷◌, ok, err, pos, ◌++◌,
}
use docker_port_forward.Ports.{tcp}
use docker_port_forward.Netip.{no_prefix}
use docker_port_forward.Options.{RestartPolicy, default_policy}
use docker_port_forward.Target.{container, service}
use docker_port_forward.Launch.Example.{host}
use docker_port_forward.Entry.Checks.{
  Settings, ParsedSettings, SettingsError, fill_defaults, parse_settings,
}
use docker_port_forward.Entry.Forward.{forward, refused}
use docker_port_forward.Entry.Accepted.{IsAccepted, parse_settings_iff, forward-refused}

abbrev any_policy : RestartPolicy → Bool
any_policy p = true

abbrev any_name : Text → Bool
any_name name = true

abbrev no_file : Text → Bool
no_file name = false

abbrev in_app : Text → Option Text
in_app name = some (codes "/srv/app/" ++ name)

abbrev settings : Settings
settings = record {
  target = codes "container/app";
  ports = codes "8080:80" ∷ [];
  addresses = [];
  detach = true;
  restart_policy = [];
  log_driver = [];
  log_opts = [];
  running_timeout = pos 0;
  files = [];
  helper_image = [];
  labels = [];
  name = codes "pf";
  network = [];
  project_name = [];
  pull = [];
  skip_preflight = false;
  udp_timeout = pos 0;
  tcp_half_close_timeout = pos 0;
  source_range = [];
}

abbrev parsed : ParsedSettings
parsed = record {
  restart_policy = default_policy true;
  source_range = no_prefix;
  target = record { type = container; name = codes "app" };
  pairs = record { address = []; local_port = pos 8080; remote_port = pos 80; protocol = tcp } ∷ [];
}

above : base_of_dir (codes "/srv/./app/x/../compose.yaml") ≡ codes "app"
unfolding base_of_dir cut_last clean_parts split clean_part text_eq
above = refl

found : resolve_project_name any_name in_app [] [] service ≡ codes "app"
unfolding resolve_project_name compose_file first_file base_of_dir cut_last clean_parts split
    clean_part text_eq
found = refl

abbrev bad : Settings
bad = record settings { pull = codes "sometimes" }

forward-refused_example :
    ((p : ParsedSettings) × IsAccepted any_policy any_policy (fill_defaults bad) p)
    ⊎ ((e : SettingsError) × (forward any_policy any_policy no_file in_app host
            (ok tt)
            302
            bad
            (record { clock = 7; helper = none })
          ≡ (err (refused e), record { clock = 7; helper = none }))
        × ((p : ParsedSettings) → IsAccepted any_policy any_policy (fill_defaults bad) p → ⊥))
forward-refused_example =
    forward-refused any_policy any_policy no_file in_app host (ok tt) 302 bad
      (record { clock = 7; helper = none })

parse_settings_iff_example :
    (parse_settings any_policy any_policy (fill_defaults settings) ≡ ok parsed)
    ↔ IsAccepted any_policy any_policy (fill_defaults settings) parsed
parse_settings_iff_example =
    parse_settings_iff any_policy any_policy (fill_defaults settings) parsed
