-- ===== src/Start.antt =====
-- internal/forward.go: `StartForward`.
mod Existing
mod Labels
mod Command
pub mod Dwindling
pub mod Settled
pub mod Recorded
pub mod Keys
mod Tests
unfoldable pub use Existing.*
unfoldable pub use Labels.*
unfoldable pub use Command.*
