-- ===== src/Node.antt =====
-- rsm/node.py: one node of the cluster.
pub mod State
pub mod Replicate
pub mod Commit
pub mod Roles
pub mod Follower
pub mod Leader
pub mod Step
pub mod Frame
pub mod Election
pub mod Entries
pub mod Append
pub mod Raises
pub mod Committing
