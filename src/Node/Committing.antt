-- ===== src/Node/Committing.antt =====
-- Committing and applying (rsm/node.py, `advance_commit` and `apply_committed`).
pub mod Rule
pub mod Apply
pub mod Unchecked
