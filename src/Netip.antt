-- ===== src/Netip.antt =====
-- The part of Go's `net/netip` that the program uses: addresses and prefixes, parsed and printed.
mod Address
mod Parse
mod Format
mod Cidr
pub mod Chars
unfoldable pub use Address.*
unfoldable pub use Parse.{parse_addr}
unfoldable pub use Format.{addr_string}
unfoldable pub use Cidr.*
