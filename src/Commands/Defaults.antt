-- ===== src/Commands/Defaults.antt =====
-- commands/port_forward.go: the values of the flags when none is given, in `FlagSet`, and the zero
-- value of the library's options.
use docker_port_forward.Common.{false, List, [], ◌∷◌, pos}
use docker_port_forward.Text.{Text}
use docker_port_forward.Ports.{localhost}
use docker_port_forward.Entry.{Settings}
use docker_port_forward.Launch.{
  default_helper_image, default_running_timeout, default_udp_timeout, pull_missing,
}
use docker_port_forward.Commands.Run.{ForwardFlags}

abbrev pub zero_settings : Settings
zero_settings = record {
  target = [];
  ports = [];
  addresses = [];
  detach = false;
  restart_policy = [];
  log_driver = [];
  log_opts = [];
  running_timeout = pos 0;
  files = [];
  helper_image = [];
  labels = [];
  name = [];
  network = [];
  project_name = [];
  pull = [];
  skip_preflight = false;
  udp_timeout = pos 0;
  tcp_half_close_timeout = pos 0;
  source_range = [];
}

unfoldable pub flag_defaults : List Text → ForwardFlags
flag_defaults args = record {
  settings = record zero_settings {
    addresses = localhost ∷ [];
    running_timeout = pos default_running_timeout;
    helper_image = default_helper_image;
    pull = pull_missing;
    udp_timeout = pos default_udp_timeout;
  };
  label_flags = [];
  log_opt_flags = [];
  args = args;
}
