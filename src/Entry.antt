-- ===== src/Entry.antt =====
-- portforward/forward.go, with internal/compose.go and internal/logging.go: `Forward`.
mod Project
mod Checks
mod Forward
pub mod Accepted
pub mod Given
pub mod Done
mod Tests
unfoldable pub use Project.*
unfoldable pub use Checks.*
unfoldable pub use Forward.*
