-- ===== src/Processor.antt =====
-- The package core/stateprocessor: messages and blocks, applied to the state.
pub mod Transition
pub mod Ledger
pub mod Payment
pub mod Outcome
pub mod Verdict
pub mod Steady
pub mod Writes
pub mod Kept
pub mod Settled
pub mod Rounds
pub mod Ended
pub mod Block
pub mod Replay
pub mod Followed
pub mod Processed
pub mod Supply
mod Tests
