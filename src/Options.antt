-- ===== src/Options.antt =====
-- internal/restart.go, internal/source_range.go and internal/logging.go: options of a helper.
mod Restart
mod Range
pub mod Restarted
pub mod Masked
pub mod Ranged
mod Tests
unfoldable pub use Restart.*
unfoldable pub use Range.*
