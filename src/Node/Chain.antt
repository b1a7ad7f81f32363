-- ===== src/Node/Chain.antt =====
-- Side chains, orphans and the main chain: SendBlock of src/node/miner.go and what it calls.
pub mod Tree
pub mod Frame
pub mod Search
pub mod Walk
pub mod Paint
pub mod Recompute
pub mod Forest
pub mod Planting
pub mod Repaint
pub mod Placing
pub mod Adopting
pub mod Moving
pub mod Hanging
pub mod Shifting
pub mod Climb
pub mod Healing
pub mod Healthy
pub mod Place
pub mod Reorganise
pub mod SendBlock
pub mod MainChain
pub mod Growth
pub mod Grown
