-- ===== src/Playground.antt =====
-- playground.py: real nodes over a network in memory. `Network` is this network, `Cluster` what the
-- two clusters share, `Consensus` the one of SWIM and Raft nodes, `World` the one of region servers.
pub mod Network
pub mod Cluster
pub mod Consensus
pub mod World
