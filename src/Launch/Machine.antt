-- ===== src/Launch/Machine.antt =====
-- The calls that `StartForward` and `ProbeListeners` make besides those of `Client`: on containers and
-- images, on the sockets and the clock of the host, and on the context and the source of randomness.
use docker_port_forward.Common.{ℕ, ℤ, Bool, Option, List, Result}
use docker_port_forward.Text.{Text}
use docker_port_forward.Netip.{Addr}
use docker_port_forward.Docker.{Client, DockerError, Labels}
use docker_port_forward.Options.{RestartPolicy}

-- `network.PortBinding`; a zero address is `none`.
pub record PortBinding : Type 0 where
  pub host_ip : Option Addr
  pub host_port : Text

-- `container.LogConfig`
pub record LogConfig : Type 0 where
  pub driver : Text
  pub config : Labels

-- The fields of `container.Config` and `container.HostConfig` that the program sets, besides the
-- entry point, which is always `sh -c`, and the streams that the probe attaches. The keys of the
-- exposed ports and of the bindings are ports as `network.ParsePort` gives them.
pub record ContainerConfig : Type 0 where
  pub image : Text
  pub command : Text
  pub labels : Labels
  pub exposed : List Text
  pub network_mode : Text
  pub bindings : List (Text × List PortBinding)
  pub auto_remove : Bool
  pub restart_policy : RestartPolicy
  pub log_config : LogConfig

pub data WaitResult : Type 0 where
  finished : WaitResult
  wait_failed : DockerError → WaitResult
  wait_timed_out : WaitResult

pub record Host : Type 1 where
  pub client : Client
  -- the new container's id
  pub container_create :
      ContainerConfig → Text → client.World → Result DockerError Text × client.World
  pub container_start : Text → client.World → Result DockerError (Unit {0}) × client.World
  -- a stop, and a removal, under a context of their own, whether or not that of the caller is done
  pub container_stop : Text → client.World → Result DockerError (Unit {0}) × client.World
  pub force_remove : Text → client.World → Result DockerError (Unit {0}) × client.World
  -- the first of: the container is not running, an error (a nil one counts as the end), 15 seconds
  pub container_wait : Text → client.World → WaitResult × client.World
  pub container_logs : Text → client.World → Result DockerError (Result Text Text) × client.World
  pub image_inspect : Text → client.World → Result DockerError (Unit {0}) × client.World
  -- the pull, and reading its response to the end
  pub image_pull : Text → client.World → Result DockerError (Result Text (Unit {0})) × client.World
  -- `net.Listen` and `net.ListenPacket`: the port that is listened on, which is closed again
  pub listen_tcp : Text → client.World → Result Text ℤ × client.World
  pub listen_udp : Text → client.World → Result Text ℤ × client.World
  -- nanoseconds
  pub now : client.World → ℕ
  -- 200 milliseconds, or the error of a context that is done first
  pub pause : client.World → Option Text × client.World
  -- blocks until the context is done
  pub context_done : client.World → client.World
  pub random_bytes : ℕ → client.World → Option (List ℕ) × client.World
  -- `network.ParsePort`
  pub parse_port : Text → Option Text
