-- ===== src/Node/Election.antt =====
-- What a step of a node (rsm/node.py) does to terms, votes and offices.
pub mod Turn
pub mod Moves
pub mod Answers
pub mod Counts
pub mod Steps
pub mod Ticks
pub mod Votes
