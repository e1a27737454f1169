-- ===== src/Pool.antt =====
-- The package core/txprocessor: the lists of an account's transactions, and the pool.
pub mod Sorted
pub mod SortedMap
pub mod Contents
pub mod Fronts
pub mod Changes
pub mod Sweeps
pub mod Limits
pub mod TxList
pub mod Costs
pub mod Lowest
pub mod Budget
pub mod Removal
pub mod TxPool
pub mod Moves
pub mod Validation
mod Tests
pub mod Losses
pub mod Admission
pub mod Queueing
pub mod Demotion
