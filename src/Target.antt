-- ===== src/Target.antt =====
-- internal/target.go: the target argument, and the running container that it names.
mod Parse
mod Resolve
pub mod Parsed
pub mod Resolved
mod Tests
unfoldable pub use Parse.*
unfoldable pub use Resolve.*
