-- ===== src/Block.antt =====
-- src/node/block.go: blocks, the coinbase transaction, mining and validation of a block by itself.
pub mod Types
pub mod Defs
pub mod Header
pub mod Mined
pub mod Genesis
pub mod Valid
pub mod Hashed
