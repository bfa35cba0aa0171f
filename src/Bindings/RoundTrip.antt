-- ===== src/Bindings/RoundTrip.antt =====
-- internal/forward.go: what the labels record is read back.
mod Lists
mod Ports
mod Bound
pub use Ports.*
pub use Bound.*
