-- ===== src/Node/Invariant.antt =====
-- The invariant of the node: the blockchain is a tree, and the pool has no transaction twice.
pub mod Growth
pub mod Adds
pub mod Ends
pub mod Draws
pub mod Proposes
pub mod Replies
pub mod Steps
