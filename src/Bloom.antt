-- ===== src/Bloom.antt =====
-- The package utils/bloom: filters for the logs of a block.
pub mod Filter
pub mod Bits
pub mod Lookup
pub mod Generator
pub mod Rows
pub mod Turned
pub mod Rotation
mod Tests
