-- ===== src/Docker/Monad.antt =====
-- A step of the program: it changes the state of the daemon, and returns a value or an error.
use docker_port_forward.Common.{Result, ok, err, List, ℤ}
use docker_port_forward.Text.{Text}
use docker_port_forward.Docker.Api.{DockerError}

-- The errors that the program returns; an error of the API is wrapped or passed on.
pub data Error : Type 0 where
  docker : DockerError → Error
  inspecting_network : Text → DockerError → Error
  inspecting_target : Text → DockerError → Error
  listing_containers : DockerError → Error
  removing_stale_helper : Text → Error
  removing_helper : Text → Error
  no_networks : Error
  unusable_network : Text → Error
  not_attached : Text → Error
  no_address_on : Text → Error
  internal_only : List Text → Error
  network_is_internal : Text → Error
  no_routable_address : Error
  not_running : Text → Error
  no_project : Error
  no_container : Text → Error
  no_service_container : Text → Text → Error
  looking_up_helper : Text → DockerError → Error
  not_a_helper : Text → Error
  resolving_target : Text → DockerError → Error
  listing_helpers : DockerError → Error
  unsupported_protocol : Text → Error
  allocating_port : Text → Text → Error
  port_not_available : Text → Text → Text → Error
  canceled : Text → Error
  image_not_present : Text → DockerError → Error
  pulling_image : Text → DockerError → Error
  reading_pull : Text → Error
  invalid_pull : Text → Error
  exited : ℤ → Error
  running_timed_out : Error
  inspecting_forward_target : DockerError → Error
  creating_helper : DockerError → Error
  starting_helper : Error → Error
  not_started : Error → Error
  no_target_id : Error
  no_pairs : Error
  no_listen_addresses : Error
  creating_probe : DockerError → Error
  starting_probe : DockerError → Error
  waiting_for_probe : DockerError → Error
  probe_timed_out : Error
  reading_probe_logs : DockerError → Error
  demuxing_probe_logs : Text → Error

abbrev pub M : Type 0 → Type 0 → Type 0
M W A = W → Result Error A × W

abbrev pub pure : {W A : Type 0} → A → M W A
pure a w = (ok a, w)

abbrev pub fail : {W A : Type 0} → Error → M W A
fail e w = (err e, w)

infixl 5 ◌>>=◌ ◌>>◌
abbrev pub ◌>>=◌ : {W A B : Type 0} → M W A → (A → M W B) → M W B
◌>>=◌ m f w = let (r, w') = m w in elim r [ ok a ↦ f a w' | err e ↦ (err e, w') ]

abbrev pub ◌>>◌ : {W A B : Type 0} → M W A → M W B → M W B
m >> k = m >>= λ _. k

-- A call whose error is looked at by what follows it.
abbrev pub attempt : {W A : Type 0} → (W → Result DockerError A × W) → M W (Result DockerError A)
attempt call w = let (r, w') = call w in (ok r, w')

-- A call whose error is wrapped.
abbrev pub wrap : {W A : Type 0} → (DockerError → Error) → (W → Result DockerError A × W) → M W A
wrap f call w = let (r, w') = call w in elim r [ ok a ↦ (ok a, w') | err e ↦ (err (f e), w') ]
