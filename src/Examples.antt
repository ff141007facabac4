-- ===== src/Examples.antt =====
-- The theorems at concrete inputs, and tests of the definitions.
pub mod Toy
mod Containers
mod Messages
mod Blocks
mod Chains
mod Nodes
mod Handlers
mod Api
mod Streams
mod Proposals
mod Heaps
mod Commands
