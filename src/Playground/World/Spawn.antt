-- ===== src/Playground/World/Spawn.antt =====
-- playground.py, lines 357-406: an empty world, and how its starting agents are placed. The agents'
-- random places and speeds are arguments.
use dssd.Prelude.{
  ℕ, String, Bool, true, false, Option, none, some, List, [], ◌∷◌, ◌++◌, contains, if◌then◌else◌,
  Dict, lookup, insert,
}
use dssd.Raft.State.{Config}
use dssd.Shard.World.{Python, GridConfig, AgentState}
use dssd.Shard.State.{Json, ShardStateMachine, Waits, new_shard}
use dssd.Shard.Region.{spawn_agent}
use dssd.Playground.Cluster.{new_cluster}
use dssd.Playground.World.{World}

-- `s.add(x)`
abbrev add_to_set : String → List String → List String
add_to_set x xs = if contains xs x then xs else xs ++ x ∷ []

module _ {F : Type 0} where
  -- `__init__`, with the names of the grid's shards.
  unfoldable pub new_world : (latency : ℕ) (shard_ids : List String) → World F
  unfolding new_cluster
  new_world latency shard_ids = record {
    cluster = new_cluster latency false;
    ids = "r0" ∷ "r1" ∷ "r2" ∷ [];
    shard_ids = shard_ids;
    shards = [];
    region_tasks = [];
    expected = [];
    last_leaders = [];
  }

  -- The inner loop of `_boot`: the shards of one node, each with its timeout.
  unfoldable pub boot_shards :
      (config_of : String → Config) (timeout : String → ℕ)
      → List String
      → Dict (ShardStateMachine F)
      → Dict (ShardStateMachine F)
  unfolding new_shard insert
  boot_shards config_of timeout [] shards = shards
  boot_shards config_of timeout (sid ∷ sids) shards =
      boot_shards config_of timeout sids
        (insert sid (new_shard (config_of sid) (timeout sid)) shards)

  module _ (py : Python F) (json : Json F) (grid : GridConfig F) where
    -- `self.regions[n].spawn_agent(agent)`, with what its waits see; the inner `none` is a call that
    -- still waits then, the outer one an exception.
    unfoldable pub spawn_at :
        Waits F → AgentState F → (n : String) → World F → Option (Option (World F × Bool))
    unfolding spawn_agent lookup insert
    spawn_at waits a n w = elim (lookup n w.shards) [
      | none ↦ none
      | some shards ↦ elim (spawn_agent py json waits grid a shards) [
        | none ↦ none
        | some none ↦ some none
        | some (some (shards', placed)) ↦
            some (some (record w { shards = insert n shards' w.shards }, placed))
      ]
    ]

    -- One pass of `_spawn_agents` over the nodes for one agent, with what the waits at each node
    -- see: whether it is placed, and expected from now on.
    unfoldable pub place :
        (waits : String → Waits F)
        → AgentState F
        → List String
        → World F
        → Option (Option (World F × Bool))
    unfolding spawn_at
    place waits a [] w = some (some (w, false))
    place waits a (n ∷ ns) w =
        if contains w.cluster.net.down n
        then place waits a ns w
        else elim (spawn_at (waits n) a n w) [
          | none ↦ none
          | some none ↦ some none
          | some (some (w', true)) ↦
              some (some (record w' { expected = add_to_set a.id w'.expected }, true))
          | some (some (w', false)) ↦ place waits a ns w'
        ]
