-- ===== src/Encryption.antt =====
-- internal/encryption/aesgcm.go: a stream of sealed chunks, each behind its length.
mod Defs
mod Frames
pub mod RoundTrip
pub mod Ends
unfoldable pub use Defs.*
