-- ===== src/Shared/Text.antt =====
-- Go's strings as lists of bytes: literals, equality, sets of strings, and the functions of the
-- packages strings and strconv that the program calls.
mod Base
mod Case
mod Split
pub mod Decimal
unfoldable pub use Base.*
unfoldable pub use Case.*
unfoldable pub use Split.*
unfoldable pub use Decimal.*
