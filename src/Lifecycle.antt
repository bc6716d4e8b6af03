-- ===== src/Lifecycle.antt =====
-- internal/controller/lifecycle_controllers.go: retention and garbage collection.
mod Retain
mod Garbage
mod Observe
pub mod Marked
pub mod Swept
unfoldable pub use Retain.*
unfoldable pub use Garbage.*
unfoldable pub use Observe.*
