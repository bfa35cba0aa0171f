-- ===== src/Ports.antt =====
-- internal/ports.go: protocols, port pairs, bind addresses and port specs.
mod Defs
mod Parse
pub mod Address
pub mod Bounds
pub mod RoundTrip
mod Tests
unfoldable pub use Defs.*
unfoldable pub use Parse.*
