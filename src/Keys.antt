-- ===== src/Keys.antt =====
-- src/util/pk_pairs.go.
pub mod Text
pub mod Defs
pub mod Read
