-- ===== src/Bitutil.antt =====
-- The package common/bitutil: the compression of sparse bytes.
pub mod Compress
pub mod Bits
pub mod Spread
pub mod Bitset
pub mod Roundtrip
pub mod Compressed
pub mod Sized
mod Tests
