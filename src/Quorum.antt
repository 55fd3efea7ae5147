-- ===== src/Quorum.antt =====
-- Quorums: the pigeonhole facts behind them, and rsm/quorum.py.
pub mod Overlap
pub mod Rules
pub mod Search
pub mod Meet
pub mod Apart
