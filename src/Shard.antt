-- ===== src/Shard.antt =====
-- sharding: the world's grid, and for each cell a replicated registry of agents. `World` is the
-- grid and the movement, `State` a shard's agents over its Raft node, `Handoff` the destination's
-- side of a transfer, `Region` the tick of a region server.
pub mod World
pub mod State
pub mod Handoff
pub mod Region
