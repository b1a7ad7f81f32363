-- ===== src/Tests.antt =====
-- Tests of the definitions on concrete data, and the theorems applied to such data.
pub mod Toy
mod TxTests
mod NodeTests
mod ChainTests
mod ClerkTests
mod StartTests
mod RunTests
mod KeyTests
mod BadTests
mod ClientTests
mod ServedTests
pub mod ForestTests
