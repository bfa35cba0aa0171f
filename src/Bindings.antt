-- ===== src/Bindings.antt =====
-- internal/forward.go: the addresses that a pair is bound on, and the labels that record the pairs
-- and their bindings on a helper container.
mod Defs
pub mod Addresses
pub mod RoundTrip
mod Tests
unfoldable pub use Defs.*
