-- ===== src/Swim.antt =====
-- swim.py: membership and failure detection. `Member` holds the records and the conflict rule,
-- `Gossip` a node's tables and what changes them, `Node` the node's messages, timers and requests.
pub mod Member
pub mod Gossip
pub mod Node
pub mod Wire
pub mod Agent
