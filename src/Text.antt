-- ===== src/Text.antt =====
-- Text, and the functions of Go's `strings` and `strconv` that the program calls. A text is the
-- list of its code points; lengths in the source are in bytes, which is the same for ASCII text.
mod Base
mod Split
mod Number
pub mod Trim
pub mod Order
pub mod Prefixed
unfoldable pub use Base.*
unfoldable pub use Split.*
unfoldable pub use Number.*
pub use Number.Numerals.*
