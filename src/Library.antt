-- ===== src/Library.antt =====
-- portforward/list.go and portforward/cleanup.go: what the program lists and cleans up.
mod Find
mod Cleanup
pub mod Found
pub mod Cleaned
pub mod Listed
pub mod Emptied
mod Tests
unfoldable pub use Find.*
unfoldable pub use Cleanup.*
