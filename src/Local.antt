-- ===== src/Local.antt =====
-- internal/repository/local/local.go: a repository in a directory of the node.
mod Defs
pub mod Atomic
unfoldable pub use Defs.*
