-- ===== src/Utxo.antt =====
-- src/node/utxodb.go, and `updateUtxoDb` of src/node/miner.go: the unspent outputs.
pub mod Defs
pub mod Spend
pub mod Conserve
pub mod Query
pub mod Maps
