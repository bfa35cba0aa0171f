-- ===== src/Docker/Api.antt =====
-- internal/docker.go: `DockerClientInterface`, and the values that its calls return. The daemon is not
-- part of the program: `Client` takes its calls as functions of the state of the daemon.
use docker_port_forward.Common.{Bool, ◌||◌, Option, List, [], ◌∷◌, ℤ, Result, if◌then◌else◌}
use docker_port_forward.Text.{Text, codes, text_eq, contains, to_lower}
use docker_port_forward.Netip.{Addr}

-- A map of texts; the source reads a missing key as the empty text.
abbrev pub Labels : Type 0
Labels = List (Text × Text)

unfoldable pub label : Text → Labels → Text
label key [] = []
label key ((k, v) ∷ rest) = if text_eq key k then v else label key rest

-- An error of the API: its message, and whether `errdefs.IsNotFound` holds of it.
pub record DockerError : Type 0 where
  pub message : Text
  pub not_found : Bool

unfoldable pub is_no_such_container : DockerError → Bool
is_no_such_container e = contains (to_lower e.message) (codes "no such container")

unfoldable pub is_not_found : DockerError → Bool
is_not_found e = e.not_found || is_no_such_container e

-- `container.State`
pub record ContainerState : Type 0 where
  pub running : Bool
  pub status : Text
  pub exit_code : ℤ

-- `container.InspectResponse`: the fields that the program reads. A nil pointer is `none`; the map of
-- networks may hold a nil endpoint, and an endpoint has an address.
pub record Inspect : Type 0 where
  pub id : Text
  pub name : Text
  pub state : Option ContainerState
  pub config_labels : Option Labels
  pub networks : Option (List (Text × Option Addr))

-- `container.Summary`
pub record Summary : Type 0 where
  pub id : Text
  pub names : List Text
  pub labels : Labels
  pub state : Text

-- The calls on containers and networks. A list is filtered by `key=value` labels, and a network's
-- inspection gives whether it is internal.
pub record Client : Type 1 where
  pub World : Type 0
  pub container_inspect : Text → World → Result DockerError Inspect × World
  pub container_list : List (Text × Text) → World → Result DockerError (List Summary) × World
  pub container_remove : Text → World → Result DockerError (Unit {0}) × World
  pub network_inspect : Text → World → Result DockerError Bool × World
