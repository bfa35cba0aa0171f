-- ===== src/Launch/Detect.antt =====
-- internal/probe.go: `ProbeListeners`.
use docker_port_forward.Common.{false, List, [], ◌∷◌, ◌++◌, Result, ok, err, pos}
use docker_port_forward.Text.{Text, codes}
use docker_port_forward.Probe.{Listener, extract_listeners}
use docker_port_forward.Docker.{
  M, Error, DockerError, ◌>>=◌, ◌>>◌, wrap, creating_probe, starting_probe, waiting_for_probe,
  probe_timed_out, reading_probe_logs, demuxing_probe_logs,
}
use docker_port_forward.Launch.Machine.{
  Host, ContainerConfig, WaitResult, finished, wait_failed, wait_timed_out,
}
use docker_port_forward.Launch.Image.{ensure_helper_image}

-- `probeSections`: the markers and the files
abbrev pub probe_sections : List (Text × Text)
probe_sections =
    (codes "===tcp===", codes "/proc/net/tcp")
    ∷ (codes "===tcp6===", codes "/proc/net/tcp6")
    ∷ (codes "===udp===", codes "/proc/net/udp")
    ∷ (codes "===udp6===", codes "/proc/net/udp6")
    ∷ []

unfoldable pub section_commands : List (Text × Text) → Text
section_commands [] = codes "true"
section_commands ((marker, path) ∷ sections) =
    codes "echo '"
    ++ (marker
        ++ (codes "'; cat "
            ++ (path ++ (codes " 2>/dev/null || true; " ++ section_commands sections))))

unfoldable pub probe_config : Text → Text → ContainerConfig
probe_config target_id helper_image = record {
  image = helper_image;
  command = section_commands probe_sections;
  labels = [];
  exposed = [];
  network_mode = codes "container:" ++ target_id;
  bindings = [];
  auto_remove = false;
  restart_policy = record { name = []; max_retries = pos 0 };
  log_config = record { driver = []; config = [] };
}

abbrev pub waited : WaitResult → Result Error (Unit {0})
waited finished = ok tt
waited (wait_failed e) = err (waiting_for_probe e)
waited wait_timed_out = err probe_timed_out

abbrev pub demuxed : Result Text Text → Result Error (List Listener)
demuxed (ok out) = ok (extract_listeners out)
demuxed (err message) = err (demuxing_probe_logs message)

module _ (h : Host) where
  abbrev pub wait_for_probe : Text → M h.client.World (Unit {0})
  wait_for_probe id w = let (r, w') = h.container_wait id w in (waited r, w')

  abbrev pub read_listeners : Result Text Text → M h.client.World (List Listener)
  read_listeners logs w = (demuxed logs, w)

  unfoldable pub run_probe : Text → M h.client.World (List Listener)
  run_probe id =
      wrap starting_probe (h.container_start id)
      >> wait_for_probe id
      >> (wrap reading_probe_logs (h.container_logs id) >>= read_listeners)

  -- the deferred removal, whose error is not looked at
  abbrev pub after_probe_create : Result DockerError Text → M h.client.World (List Listener)
  after_probe_create (err e) w = (err (creating_probe e), w)
  after_probe_create (ok id) w =
      let (r, w1) = run_probe id w in let (removed, w2) = h.force_remove id w1 in (r, w2)

  unfoldable pub create_probe : Text → Text → M h.client.World (List Listener)
  create_probe target_id helper_image w =
      let (r, w') = h.container_create (probe_config target_id helper_image) [] w in
      after_probe_create r w'

  unfoldable pub probe_listeners : Text → Text → Text → M h.client.World (List Listener)
  probe_listeners target_id helper_image pull_policy =
      ensure_helper_image h helper_image pull_policy >> create_probe target_id helper_image
