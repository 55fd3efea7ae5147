-- ===== src/Node/Entries.antt =====
-- Where the entries in a node's log and in its messages come from (rsm/node.py).
pub mod Moves
pub mod Offices
pub mod Turns
pub mod Answers
pub mod Steps
