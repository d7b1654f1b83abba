-- ===== src/Text.antt =====
-- The operations of Rust's `str` and `u8` that the crates call, over the bytes of the text. A Rust
-- `str` is a byte string that `is_utf8` accepts; the operations are total on all byte strings.
mod Ascii
mod Utf8
mod Pieces
mod Order
pub mod Cut
pub mod Sorted
unfoldable pub use Ascii.*
unfoldable pub use Utf8.*
unfoldable pub use Pieces.*
unfoldable pub use Order.*
