-- ===== src/Launch/PresentTests.antt =====
-- `ensureHelperImage` on a host that may lack the image.
use docker_port_forward.Text.{text_eq, codes}
use docker_port_forward.Common.{◌≡◌, refl, Bool, true, false, none, [], ok, err, if◌then◌else◌, pos}
use docker_port_forward.Docker.{Client, DockerError}
use docker_port_forward.Launch.Machine.{Host, finished}
use docker_port_forward.Launch.Image.{ensure_helper_image, ensure_missing, pull_image}
use docker_port_forward.Launch.Present.{Images, IsEnsured, ensure_helper_image-IsEnsured}

abbrev missing : DockerError
missing = record { message = codes "No such image"; not_found = true }

-- The state is whether the image is there.
abbrev depot_client : Client
depot_client = record {
  World = Bool;
  container_inspect = λ id here. (err missing, here);
  container_list = λ filters here. (ok [], here);
  container_remove = λ id here. (err missing, here);
  network_inspect = λ name here. (err missing, here);
}

abbrev depot : Host
depot = record {
  client = depot_client;
  container_create = λ config name here. (err missing, here);
  container_start = λ id here. (err missing, here);
  container_stop = λ id here. (err missing, here);
  force_remove = λ id here. (err missing, here);
  container_wait = λ id here. (finished, here);
  container_logs = λ id here. (err missing, here);
  image_inspect = λ ref here. (if here then ok tt else err missing, here);
  image_pull = λ ref here. (ok (ok tt), true);
  listen_tcp = λ bind here. (ok (pos 40000), here);
  listen_udp = λ bind here. (ok (pos 40001), here);
  now = λ here. 0;
  pause = λ here. (none, here);
  context_done = λ here. here;
  random_bytes = λ n here. (none, here);
  parse_port = λ t. none;
}

found : (here : Bool) → (depot.image_inspect [] here).0 ≡ ok tt → here ≡ true
found true e = refl
found false e = cc

images : Images depot
images = record {
  Has = λ ref here. here ≡ true;
  inspect_keeps = λ ref here. refl;
  inspect_finds = λ ref here e. found here e;
  pull_gets = λ ref here e. refl;
}

-- the image is pulled when it is missing, and else it stays
pulled : ensure_helper_image depot (codes "alpine/socat") (codes "missing") false ≡ (ok tt, true)
unfolding ensure_helper_image text_eq ensure_missing pull_image
pulled = refl

ensure_helper_image-IsEnsured_example :
    IsEnsured depot images
      (codes "alpine/socat")
      (codes "missing")
      false
      (ensure_helper_image depot (codes "alpine/socat") (codes "missing") false)
ensure_helper_image-IsEnsured_example =
    ensure_helper_image-IsEnsured depot images (codes "alpine/socat") (codes "missing") false
