-- ===== src/Tx.antt =====
-- src/node/transaction.go: transactions, their packing and hashes, and their structural checks.
pub mod Types
pub mod Wire
pub mod Check
pub mod Preimage
pub mod Finite
