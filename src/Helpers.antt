-- ===== src/Helpers.antt =====
-- internal/forward.go and internal/drift.go: the helper containers.
mod Labels
mod Remove
mod Check
mod Network
mod Overlap
pub mod Removal
pub mod Staleness
pub mod Judgements
pub mod Verdicts
pub mod Names
pub mod Best
pub mod Picked
pub mod Orphans
mod Tests
unfoldable pub use Labels.*
unfoldable pub use Remove.*
unfoldable pub use Check.*
unfoldable pub use Network.*
unfoldable pub use Overlap.*
