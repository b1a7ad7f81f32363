-- ===== src/Client.antt =====
-- src/client/client.go and the start of src/client/client2.go.
pub mod Defs
pub mod Page
pub mod Session
pub mod Votes
pub mod Entries
pub mod Scores
pub mod Parents
pub mod Endless
pub mod SetUp
