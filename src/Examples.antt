-- ===== src/Examples.antt =====
-- The theorems at work: sample resources, and each theorem applied to some of them.
mod Samples
mod Retained
mod Admitted
mod Scheduled
mod Reconciled
mod Policies
mod Restores
mod Secured
mod Recorded
mod Restored
mod Collected
mod Stored
