-- ===== src/Commands.antt =====
-- commands/ and main.go: the flags, the output and the exit codes of the commands.
mod Quote
mod Rows
mod Flags
mod Run
mod Defaults
pub mod Labelled
pub mod Exits
mod Tests
unfoldable pub use Quote.*
unfoldable pub use Rows.*
unfoldable pub use Flags.*
unfoldable pub use Run.*
unfoldable pub use Defaults.*
