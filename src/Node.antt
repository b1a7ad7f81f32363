-- ===== src/Node.antt =====
-- src/node/miner.go: the mining node.
pub mod Validate
pub mod Accepts
pub mod Supply
pub mod State
pub mod Chain
pub mod Mine
pub mod Requests
pub mod Peers
pub mod Start
pub mod Pending
pub mod PeerList
pub mod Bootstrap
pub mod Mined
pub mod Run
pub mod Collect
pub mod Round
pub mod Finite
pub mod Well
