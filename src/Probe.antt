-- ===== src/Probe.antt =====
-- internal/probe.go: the listening sockets of a container are read from its /proc/net files.
mod HexAddr
mod Listeners
pub mod HexRoundTrip
pub mod Sorted
pub mod Ports
pub mod Reported
mod Tests
unfoldable pub use HexAddr.*
unfoldable pub use Listeners.*
