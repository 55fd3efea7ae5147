-- ===== src/Tests.antt =====
-- Concrete runs of the modelled code, and the theorems at them.
mod Agreement
mod Clients
mod Clusters
mod Crashes
mod Commits
mod Logs
mod Histories
mod Keys
mod Matching
mod Members
mod Nets
mod Nodes
mod Quorums
mod Repairs
mod Snapshots
mod Systems
mod Watches
mod Wires
