-- ===== src/Raft.antt =====
-- raft.py: one Raft node. `State` holds the object and what needs no peer, `Vote` the election,
-- `Append` the follower's side of replication, `Replicate` the leader's, `Apply` the delivery of
-- committed entries and the timer, `Node` the node as a step relation over its events.
pub mod State
pub mod Log
pub mod Vote
pub mod Append
pub mod Replicate
pub mod Apply
pub mod Agreement
pub mod CatchUp
pub mod Node
pub mod Cluster
pub mod Group
pub mod Machine
