-- ===== src/Checksum.antt =====
-- internal/checksum/checksum.go: sums of files and the manifest that lists them.
mod Sums
mod Manifest
mod Names
pub use Names.{same_bytes→eq}
pub mod RoundTrip
unfoldable pub use Sums.*
unfoldable pub use Manifest.*
