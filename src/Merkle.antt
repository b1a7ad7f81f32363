-- ===== src/Merkle.antt =====
-- src/node/merkle.go: the Merkle root of a block's transactions, kept in a linear array.
pub mod Defs
pub mod Rows
pub mod Loop
pub mod Root
pub mod Finite
