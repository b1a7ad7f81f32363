-- ===== src/Node/Run.antt =====
-- A node of src/node/miner.go over time: its steps, and what holds in every state it reaches.
pub mod Links
pub mod Entries
pub mod Step
pub mod Fate
pub mod Sound
pub mod Live
pub mod Always
