-- ===== src/Shard/Region.antt =====
-- sharding/region_server.py: one tick of a region server. The three parts are separate functions,
-- since the shards may change while it waits in between.
pub mod Keep
pub mod Tick
use dssd.Prelude.{
  ℕ, String, Bool, true, false, not, Option, none, some, List, [], ◌∷◌, ◌++◌, str_eq, if◌then◌else◌,
  Dict, lookup, insert, remove,
}
use dssd.Raft.State.{is_leader}
use dssd.Shard.World.{Python, GridConfig, AgentState, step, shard_id_for}
use dssd.Shard.State.{Json, ShardStateMachine, caught_up, propose_tick, Waits, add_agent}

-- An agent that left its shard, and the shard it is in now.
pub record Departure (F : Type 0) : Type 0 where
  pub shard : String
  pub agent : AgentState F
  pub dest : String

module _ {F : Type 0} where
  -- `AgentState.step` for every agent, in place.
  unfoldable pub move_all :
      (AgentState F → AgentState F) → Dict (AgentState F) → Dict (AgentState F)
  move_all f [] = []
  move_all f ((id, a) ∷ d) = (id, f a) ∷ move_all f d

  -- Those of the moved agents that are not in this shard any more; `none` is an exception.
  unfoldable pub leaving :
      (AgentState F → Option String)
      → (shard_id : String) → Dict (AgentState F)
      → Option (List (Departure F))
  leaving place shard_id [] = some []
  leaving place shard_id ((id, a) ∷ d) =
      let rest = leaving place shard_id d in
      elim (place a) [
        | none ↦ none
        | some dest ↦ elim rest [
          | none ↦ none
          | some ds ↦
              if str_eq dest shard_id
              then some ds
              else some (record { shard = shard_id; agent = a; dest = dest } ∷ ds)
        ]
      ]

  -- The first part of `tick`, for one shard.
  unfoldable pub tick_shard :
      Python F
      → Json F
      → (dt : F) → GridConfig F
      → (shard_id : String) → ShardStateMachine F
      → Option (ShardStateMachine F × List (Departure F))
  tick_shard py json dt grid shard_id s =
      if not (is_leader s.raft.role)
      then some (s, [])
      else if not (caught_up s)
      then some (s, [])
      else (let moved = record s { agents = move_all (step py dt grid) s.agents } in
          elim (leaving (λ a. shard_id_for py a.x a.y grid) shard_id moved.agents) [
            | none ↦ none
            | some ds ↦ some (propose_tick json moved, ds)
          ])

  unfoldable pub tick_shards :
      Python F
      → Json F
      → (dt : F) → GridConfig F
      → Dict (ShardStateMachine F)
      → Option (Dict (ShardStateMachine F) × List (Departure F))
  tick_shards py json dt grid [] = some ([], [])
  tick_shards py json dt grid ((id, s) ∷ shards) =
      let rest = tick_shards py json dt grid shards in
      elim (tick_shard py json dt grid id s) [
        | none ↦ none
        | some (s', ds) ↦ elim rest [
          | none ↦ none
          | some (shards', es) ↦ some ((id, s') ∷ shards', ds ++ es)
        ]
      ]

  -- `_handoff`: the address to ask and the term to ask for; the inner `none` is a leader that is
  -- unknown, the outer one the KeyError of an unknown shard.
  unfoldable pub handoff_target :
      (peer_addrs : Dict String) (dest : String)
      → Dict (ShardStateMachine F)
      → Option (Option (String × ℕ))
  handoff_target peer_addrs dest shards = elim (lookup dest shards) [
    | none ↦ none
    | some s ↦ elim (lookup s.raft.leader_id peer_addrs) [
      | none ↦ some none
      | some addr ↦ some (some (addr, s.raft.current_term))
    ]
  ]

  -- `handed_off`, from the departures with their answers, over those recorded so far.
  unfoldable pub record_accepted :
      List (Departure F × Bool) → Dict (List String) → Dict (List String)
  unfolding lookup insert
  record_accepted [] handed_off = handed_off
  record_accepted ((d, accepted) ∷ answers) handed_off = record_accepted answers (
      if accepted
      then (elim (lookup d.shard handed_off) [
        | none ↦ insert d.shard (d.agent.id ∷ []) handed_off
        | some ids ↦ insert d.shard (ids ++ d.agent.id ∷ []) handed_off
      ])
      else handed_off)

  unfoldable pub remove_all : List String → Dict (AgentState F) → Dict (AgentState F)
  unfolding remove
  remove_all [] d = d
  remove_all (id ∷ ids) d = remove_all ids (remove id d)

  -- The last part of `tick`, for one shard: its handed-off agents go once it has caught up.
  unfoldable pub finish_shard :
      Json F → (ids : List String) (ready : Bool) → ShardStateMachine F → ShardStateMachine F
  unfolding remove_all propose_tick
  finish_shard json ids ready s =
      if ready then propose_tick json (record s { agents = remove_all ids s.agents }) else s

  -- For every shard with agents that were accepted; `ready` is what `wait_caught_up` returned.
  unfoldable pub finish_shards :
      Json F
      → (ready : String → Bool) → Dict (List String)
      → Dict (ShardStateMachine F)
      → Dict (ShardStateMachine F)
  unfolding finish_shard lookup insert
  finish_shards json ready [] shards = shards
  finish_shards json ready ((id, ids) ∷ handed_off) shards =
      finish_shards json ready handed_off (elim (lookup id shards) [
        | none ↦ shards
        | some s ↦ insert id (finish_shard json ids (ready id) s) shards
      ])

  -- `spawn_agent`, with what the waits of `add_agent` see: the shards and the answer; the inner
  -- `none` is a call that still waits then, the outer one an exception: no shard for this place, or
  -- one that is not here.
  unfoldable pub spawn_agent :
      Python F
      → Json F
      → Waits F
      → GridConfig F
      → AgentState F
      → Dict (ShardStateMachine F)
      → Option (Option (Dict (ShardStateMachine F) × Bool))
  spawn_agent py json waits grid a shards = elim (shard_id_for py a.x a.y grid) [
    | none ↦ none
    | some id ↦ elim (lookup id shards) [
      | none ↦ none
      | some s ↦
          let called = add_agent json waits a s in
          if is_leader s.raft.role
          then (elim called [
            | none ↦ some none
            | some (s', added) ↦ some (some (insert id s' shards, added))
          ])
          else some (some (shards, false))
    ]
  ]
