-- ===== src/RestoreLaws.antt =====
-- What the execution of a restore keeps to (internal/restore/restorer.go and
-- internal/controller/restore_controller.go).
pub mod Permitted
pub mod Tally
pub mod Stages
pub mod Quiet
pub mod Phases
pub mod DryRun
pub mod Works
mod Moves
pub mod UnderWay
pub mod Completion
