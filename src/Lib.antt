-- ===== src/Lib.antt =====
-- A Kubernetes operator for backups and restores inside one cluster: models of its Go code and
-- theorems about them. Paths below are those of the repository.
--
-- The parts of the program and how they interact. The custom resources (api/v1alpha1/*_types.go)
-- are the only shared state. Admission webhooks (api/v1alpha1/webhook_defaults.go and
-- webhook_validation.go) default and check every change of a specification. The policy reconciler
-- (internal/controller/policy_controller.go) asks the scheduler (internal/scheduler) which times
-- are due and creates a BackupTask for each. The backup reconciler
-- (internal/controller/backup_controller.go, common.go) moves a BackupTask through its phases, one
-- stage a call, and ends with a BackupRecord. Retention (internal/retention) chooses the records
-- that a retention run (internal/controller/lifecycle_controllers.go) deletes, and garbage
-- collection deletes ended tasks. The record reconciler
-- (internal/controller/record_controller.go) verifies the files of a BackupRecord against its
-- manifest (internal/checksum) and deletes them with it. The restore reconciler
-- (internal/controller/restore_controller.go) fetches the archive of a record, decrypts it
-- (internal/encryption), plans the objects of its index (internal/restore/plan.go) and applies them
-- in stages (internal/restore/restorer.go).
--
-- The files:
--   Prelude      Boolean tests, lists, texts, maps, integers and a stable sort
--   Api          the resources as records and enumerations, a child for each *_types.go
--   Paths        path.Clean and the two path checks of the webhooks
--   Webhook      the validations, a child for each resource; Mapping, Repository.Sound and
--                Task.Frozen hold their theorems; Defaults the Default methods, Defaults.Laws theirs
--   Retention    Select
--   Scheduler    Parse and DueTimes
--   Errors       typed errors, and the result of a call outside
--   Backup       the backup reconciler: phase tests, transition, fail and cancel, the stages,
--                validate and Reconcile
--   BackupLaws   its theorems: phases, cancellation, the validate stage, and the run to completion
--   PolicyRun    the policy reconciler: task names, the stored tasks, the loop over the due times,
--                Reconcile; Concurrency, Coverage, Replace and Window hold the theorems
--   Restore      BuildPlan and the conflict policies; Items, Namespaces and Actions hold the theorems
--   Checksum     the manifest of a record; RoundTrip holds the theorem
--   Encryption   the chunked stream; RoundTrip and Ends hold the theorems
--   RestoreRun   Apply, and the restore reconciler: the status, the stages, the checks, Reconcile
--   RestoreLaws  its theorems, a child for each: calls on objects, counters, stages, phases, dry
--                runs, and the run to the end
--   RecordRun    the record reconciler: verify, finalize, Reconcile; Intact, Removed and Expired
--                hold the theorems
--   Lifecycle    retention runs, the plugin configuration and garbage collection; Marked and Swept
--                hold the theorems
--   Local        the local repository: secured paths, Put and Get; Atomic holds the theorem
--   Examples     sample resources, and each theorem applied to some of them
--
-- How the code is modelled. A method that changes its receiver returns the changed record; a
-- reconciler call takes the stored object and the time, and returns the object as it is stored
-- afterwards with the reply to the queue. What a call reads or does outside (API server,
-- repository, workspace) is an argument: the value that it obtained or the error of the first
-- failing call. Status patches are taken to succeed. The policy reconciler has the stored tasks as
-- a list that its calls read and change. Times and durations are nanoseconds in ℤ; int64
-- arithmetic that can overflow in practice (the age in retention, the retry pause) is reduced to 64
-- bits; int32 counters and other sums of times are not. Libraries are parameters: sort.Slice (some
-- sort in order that keeps the records), the cron library (a function from a time to the next
-- activation, which is later where a theorem says so), SHA-256, AES-GCM (with its documented laws as
-- a hypothesis), time formatting, the parsers of cron expressions, zones and selectors. A file or a
-- stream is the list of its bytes; texts that are compared with bytes are taken to be ASCII. The
-- calls of Apply, complete (its patch of the BackupRecord) and finalize that change something
-- outside come back as lists in their order.
--
-- Bounds. DueTimes looks at 1000 activations at most, as the code does. The decimal digits of a
-- time are 19 at most, enough for an int64. The loops of Encrypt and Decrypt have one round more than
-- the stream has bytes, which is enough as every round but the last takes a byte at least. Every
-- other recursion is structural.
--
-- Not modelled: conditions, events, metrics and the texts of error messages; the work of the
-- collecting, packaging, uploading and verifying stages on files, of which only the effect on the
-- task is there; the selection preview; the contents of restored objects, the rewriting of their
-- references and the transformation of claims; the repository controller; the repository adapters
-- but for the paths, Put and Get of the local one; the archive; the collector, sanitizer and
-- snapshot manager; the web console, the commands and generated code.
pub mod Prelude
pub mod Api
pub mod Paths
pub mod Webhook
pub mod Retention
pub mod Scheduler
pub mod Errors
pub mod Backup
pub mod BackupLaws
pub mod PolicyRun
pub mod Restore
pub mod Checksum
pub mod RestoreRun
pub mod RestoreLaws
pub mod RecordRun
pub mod Lifecycle
pub mod Local
pub mod Encryption
mod Examples
