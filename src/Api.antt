-- ===== src/Api.antt =====
-- The custom resources of api/v1alpha1, as records; one child for each *_types.go file.
-- A phase, mode or type that the code spells by constants is a data type whose last constructor
-- `other` holds any further text. A pointer is an `Option`, a Go map an association list, a slice
-- a list (`nil` and an empty slice are one value here). Integers are ℤ; a duration and a time are
-- nanoseconds, a time since the Unix epoch. A label selector, whose type belongs to Kubernetes,
-- is carried as its text. `ObjectMeta` has the fields of the Kubernetes type that the code reads.
mod Common
mod Selection
mod Repository
mod Policy
mod Task
mod Record
mod Restore
mod Config
pub use Common.*
pub use Selection.*
pub use Repository.*
pub use Policy.*
pub use Task.*
pub use Record.*
pub use Restore.*
pub use Config.*
