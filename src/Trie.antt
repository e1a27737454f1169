-- ===== src/Trie.antt =====
-- The package trie: the encodings of its keys, and the trie itself.
pub mod Encoding
pub mod Nibbles
pub mod Prefix
pub mod Node
pub mod Walk
pub mod Change
pub mod Find
pub mod Keys
pub mod Short
pub mod Kids
pub mod Ends
pub mod Branch
pub mod Forks
pub mod Loaded
pub mod Grow
pub mod Insert
pub mod Lone
pub mod Merge
pub mod Reduce
pub mod Shrink
pub mod Delete
pub mod Alike
pub mod Get
pub mod Handle
pub mod Contents
pub mod Updates
pub mod Fuel
pub mod Bytes
mod Samples
mod Tests
