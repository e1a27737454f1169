-- ===== src/State.antt =====
-- The package core/state: accounts being modified, the journal of changes, snapshots.
pub mod Types
pub mod Object
pub mod Db
pub mod Journal
pub mod View
pub mod Spec
pub mod Undo
pub mod Valid
pub mod Undoable
pub mod Undone
pub mod Setters
pub mod Objects
pub mod Reads
pub mod Operations
pub mod Effects
pub mod Ops
pub mod Refinement
pub mod Getters
pub mod Revisions
pub mod Since
pub mod Revert
pub mod Managed
pub mod Final
pub mod Finish
pub mod Storage
pub mod Settling
pub mod Finalise
pub mod Reopen
pub mod Commit
pub mod Copies
pub mod Saving
pub mod Committed
pub mod Nonces
pub mod Taken
pub mod Reserved
pub mod Managing
pub mod Tests
mod Samples
