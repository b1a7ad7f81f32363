-- ===== src/Clerk.antt =====
-- src/clerk/clerk.go.
pub mod Defs
pub mod Make
pub mod Peers
pub mod Requests
pub mod Retry
pub mod Published
pub mod Posted
pub mod Gather
pub mod Bad
pub mod Refused
pub mod BadCalls
pub mod Spends
pub mod Paid
pub mod Served
