-- ===== src/Paths.antt =====
-- Slash-separated paths: the functions of packages path and strings that the validation and the
-- repositories call, over whole texts.
mod Split
mod Clean
pub mod Safety
unfoldable pub use Split.*
unfoldable pub use Clean.*
