-- ===== src/Launch.antt =====
-- internal/forward.go: what `StartForward` does besides the loop over existing helpers.
mod Machine
mod Poll
mod Ports
mod Image
mod Loops
mod Config
mod Helper
mod Start
mod Detect
pub mod Polled
pub mod Freed
pub mod Started
pub mod Running
pub mod Resolved
pub mod Free
pub mod Present
pub mod Launched
pub mod Post
pub mod Served
pub mod Forwarded
pub mod Detected
pub mod Published
pub mod Again
pub mod Twice
pub mod Example
mod Tests
mod PublishedTests
mod PresentTests
mod TwiceTests
unfoldable pub use Machine.*
unfoldable pub use Poll.*
unfoldable pub use Ports.*
unfoldable pub use Image.*
unfoldable pub use Loops.*
unfoldable pub use Config.*
unfoldable pub use Helper.*
unfoldable pub use Start.*
unfoldable pub use Detect.*
