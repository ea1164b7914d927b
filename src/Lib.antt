-- ===== src/Lib.antt =====
-- dssd: the coordination code of Anchor. Every process is a member of a SWIM group, which tells
-- it who is alive, and of one or more Raft groups, which agree on a log. The DiLoCo trainer uses
-- them to pick the leader that runs its round barrier; the sharded simulation keeps one Raft
-- group for each shard of its world, and moves agents between shards.
--
-- Raft models src/dssd/raft.py. Raft/State: the object Raft with its configuration, propose,
-- _become_follower and _become_leader; the messages are those of proto/spine.proto. Raft/Vote:
-- _start_election, its closure ask and handle_request_vote. Raft/Append: handle_append_entries.
-- Raft/Replicate: _replicate_to, before its send and after the reply, and _advance_commit_index.
-- Raft/Apply: one round of _run, and _applier. Raft/Node: a node as a step relation, one step for
-- each of these events. Raft/Group: the group with its AppendEntries requests, and the history of
-- each term's log. Raft/Machine: the group with its vote requests and the answers to
-- AppendEntries under way as well, what its members have acknowledged, and what its appliers have
-- handed over. Raft/CatchUp: a leader's rounds with one peer over a network that delivers.
-- Raft/Cluster: a group of nodes with the messages of elections in flight; other steps of a node
-- that keep the vote's bookkeeping are steps of the group as well.
--
-- Addr models src/dssd/addr.py.
--
-- Swim models src/dssd/swim.py. Swim/Member: Member and supersedes. Swim/Gossip: the node's
-- tables, _merge, _mark, _set, the suspicion timer and _take_broadcasts. Swim/Node: _handle, the
-- requests and acknowledgements, _relay_ping, and in Node/Runs and Node/Timers a suspicion's
-- timer along a run. Swim/Wire: Message.encode, Message.decode and datagram_received. Swim/Agent:
-- Config, start, stop, join, _probe_once and _resurrect_once.
--
-- Shard models src/dssd/sharding. Shard/World: world.py. Shard/State: shard_state.py, over the
-- Raft node. Shard/Handoff: HandOff of handoff.py. Shard/Region: tick of region_server.py.
--
-- Diloco/Barrier models src/dssd/diloco/barrier.py, over an interface of the outer step,
-- OuterStep. Diloco/Outer models src/dssd/diloco/outer.py and fills this interface. Diloco/Worker
-- models src/dssd/diloco/worker.py: Sync, which makes a barrier for a term and submits to it, and
-- the follower's outer synchronisation.
--
-- Playground/Network models the in-memory network of src/dssd/playground.py: MemoryNetwork,
-- _Endpoint, _RaftTransport and the settings of _Cluster. Playground/Cluster models the rest of
-- _Cluster, Playground/Consensus the cluster Consensus of SWIM and Raft nodes, Playground/World
-- the cluster World of region servers.
--
-- Membership models the services of src/dssd/membership.py.
--
-- Prelude holds the shared helpers, Checks the concrete runs.
--
-- A method is a function from the object's state and its arguments to the new state and its
-- result. Where a coroutine waits, the function ends, and the rest is a function of its own, so
-- other steps may come in between. Clock readings, random timeouts and random choices are
-- arguments, in any fixed unit. An exception that would end a task is none, or a constructor of
-- its own. Numbers are unbounded, as in Python; a term or an index that a message's uint64 could
-- not hold is out of reach and not modelled. Dicts are association lists in insertion order.
--
-- Loops run over their lists. The two that count, down to the commit index and up to it, run as
-- many rounds as the numbers lie apart, so there is no fuel to run out. Raft/CatchUp counts the
-- rounds, and the leader's next index bounds them.
--
-- Interfaces stand for what the code takes from elsewhere: Python's floating point and printing
-- (Shard/World.Python, Addr.Decimal), the json library (Shard/State.Json, Swim/Wire.JsonText),
-- torch (Diloco/Outer.Tensors, Diloco/Worker.Layout). What a shard's waits see of the clock and
-- of the shard, the network's answers to a hand-off, random choices and the name service are
-- arguments too.
--
-- Not modelled: sockets, gRPC's channels, the neural network, its data and its training step, the
-- measurements of diloco/experiment.py, the joins when the playground boots, a SWIM node's
-- ValueError for an address that does not split, a wait for a shard's lock (it is free when a
-- call asks for it), the command lines, generated code and the web page. They are I/O, calls of
-- libraries, or left for later.
pub mod Addr
pub mod Checks
pub mod Diloco
pub mod Membership
pub mod Playground
pub mod Prelude
pub mod Raft
pub mod Shard
pub mod Swim
