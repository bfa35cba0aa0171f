-- ===== src/Lib.antt =====
-- dokku/docker-port-forward: a Docker CLI plugin that publishes ports of a running container by
-- starting a helper container beside it, which forwards the connections.
--
-- The program's parts. `commands/` reads the flags and calls `portforward/`, which validates the
-- options, parses the port specs and the target, and calls `internal/`. There the target is resolved
-- to a running container, the helpers of earlier calls are listed, checked and reused, replaced or
-- removed, a network is picked that the helper shares with the target, and the helper is created with
-- labels that record what it forwards. The labels are all the state that the program keeps: a later
-- call reads them back.
--
-- Which file models what:
--   * Common and the files under it: numbers, integers, lists, results.
--   * Text: the functions of Go's `strings` and `strconv` that the program calls. Netip: those of
--     `net/netip`. A text is the list of its code points.
--   * Ports: `internal/ports.go`. `Ports/Defs` has `PortPair`, its printed form and the addresses,
--     `Ports/Parse` has `ParsePortSpec`; `Ports/Bounds` and `Ports/RoundTrip` are on what they
--     accept and print.
--   * Bindings: `PairAddresses` and the labels' encodings in `internal/forward.go`.
--   * Probe: `ExtractListeners` and `parseHexAddr` of `internal/probe.go`.
--   * Docker: `DockerClientInterface` of `internal/docker.go`. The daemon is a parameter: a `Client`
--     is a type of states and the calls as functions of a state. `Docker/Monad` has the steps of the
--     program, which pass the state on and return a value or an error.
--   * Helpers: the helper containers, `internal/drift.go` and `internal/forward.go`. `Helpers/Remove`
--     has `ListHelpers`, `RemoveHelpers` and `CleanupStaleHelpers`, `Helpers/Check` has `CheckHelper`,
--     `Helpers/Network` has `pickTargetNetwork`, `Helpers/Overlap` has `findOverlappingHelper` and
--     `removeOrphanedHelpers`.
--   * Target: `internal/target.go`, `ParseTarget` and `ResolveTarget`.
--   * Options: `internal/restart.go` and `internal/source_range.go`. Docker's own validation of a
--     restart policy is a parameter.
--   * Start: of `internal/forward.go`, the loop of `StartForward` over the helpers that exist already,
--     and the labels and the command that `buildHelperContainerConfig` gives a new one.
--   * Launch: the rest of `StartForward`. `Launch/Machine` has the host as a parameter: a `Client`, the
--     calls that create and run containers, the sockets, the clock, the context and the randomness.
--     `Launch/Ports` has `resolveAutoPorts` and `preflightHostPorts`, `Launch/Image` has
--     `ensureHelperImage`, `Launch/Poll` and `Launch/Loops` the three loops that poll, `Launch/Config`
--     has `buildHelperContainerConfig`, `Launch/Helper` the creation and the removal of the helper,
--     `Launch/Start` has `StartForward` and `Launch/Detect` has `ProbeListeners` of `internal/probe.go`.
--   * Library: `portforward/list.go` and `portforward/cleanup.go`.
--   * Entry: `portforward/forward.go`, with `ComposeFile` of `internal/compose.go` and
--     `internal/logging.go`. `Entry/Checks` has the options of `Forward`, their default values and
--     checks, `Entry/Project` has `resolveProjectName`, `Entry/Forward` has `Forward`.
--   * Commands: `commands/` and `main.go`. `Commands/Flags` has the label and log option flags and the
--     arguments, `Commands/Rows` the rows of list and cleanup, `Commands/Run` the `Run` methods. The
--     flags are a parameter as the flag library parsed them, and so is the table of printable
--     characters above ASCII.
--
-- Correspondence. A Go function keeps its name in lower case with underscores. Integers of the
-- source are `ℤ`, and `strconv` keeps their 64-bit range. A loop over a list is a structural
-- recursion. The loop of `StartForward` runs on fuel: one round more than the target has helpers and
-- the daemon answers removals while others are in progress, which a helper may outlast, is enough.
-- The loops that poll run on fuel: a pause takes 200 milliseconds, so that one round more
-- than the timeout has pauses is enough. Durations and the clock are in nanoseconds. The context is
-- part of the host: a pause, and the wait of an attached helper, tell when it is done. A Go map that
-- is only searched is an association list, and the order in which a map is walked is not used by the
-- code that is modelled. Errors are values: their texts are left out, unless the code reads them.
-- Log lines are left out.
--
-- Not modelled: the daemon and its API client, the compose loader, the operating system's sockets
-- and clock, closing the client, log lines, and the parts of the program that are not named above.
pub mod Common
pub mod Text
pub mod Netip
pub mod Ports
pub mod Bindings
pub mod Probe
pub mod Docker
pub mod Helpers
pub mod Target
pub mod Options
pub mod Start
pub mod Library
pub mod Launch
pub mod Entry
pub mod Commands
