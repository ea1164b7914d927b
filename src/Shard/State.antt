-- ===== src/Shard/State.antt =====
-- sharding/shard_state.py: the registry of a shard's agents, replicated by a Raft node. The lock is
-- held from the first to the last step of a call: in between only the Raft node moves and delivers
-- entries. What the module uses of the json library is an interface, `Json`.
pub mod Snapshot
pub mod Rollback
pub mod Adding
use dssd.Prelude.{
  ℕ, ◌+◌, String, Bool, true, false, not, ◌&&◌, Option, none, some, List, [], ◌∷◌, leb, ◌==◌,
  if◌then◌else◌, Dict, insert, values,
}
use dssd.Raft.State.{Raft, LogEntry, Config, init, is_leader, last_index, propose}
use dssd.Shard.World.{AgentState}

-- `json.dumps([asdict(a) for a in agents]).encode()`, and back; `none` is an exception.
pub record Json (F : Type 0) : Type 0 where
  pub dumps : List (AgentState F) → List ℕ
  pub loads : List ℕ → Option (List (AgentState F))

pub record ShardStateMachine (F : Type 0) : Type 0 where
  pub raft : Raft
  pub agents : Dict (AgentState F)

-- One look of `_wait_applied` at the node, after a start as `leading` of `term`: the answer, or
-- `none` to sleep on.
unfoldable pub wait_applied_once :
    (index term : ℕ) (leading : Bool) (deadline now : ℕ) → Raft → Option Bool
wait_applied_once index term leading deadline now r =
    if leading && (r.current_term == term && is_leader r.role)
    then (if leb index r.last_applied
        then some true
        else if leb deadline now
        then some false
        else none)
    else some false

-- The loop, over the clock and the node as the wake-ups find them.
unfoldable pub wait_applied_loop :
    (index term : ℕ) (leading : Bool) (deadline : ℕ) → List (ℕ × Raft) → Option Bool
unfolding wait_applied_once
wait_applied_loop index term leading deadline [] = none
wait_applied_loop index term leading deadline ((now, r) ∷ seen) =
    let rest = wait_applied_loop index term leading deadline seen in
    elim (wait_applied_once index term leading deadline now r) [ none ↦ rest | some b ↦ some b ]

-- `_wait_applied`, called at time `now` on this node; the timeout is its default, in the clock's
-- unit.
unfoldable pub wait_applied : (index timeout now : ℕ) → Raft → List (ℕ × Raft) → Option Bool
unfolding wait_applied_loop
wait_applied index timeout now r seen =
    wait_applied_loop index r.current_term (is_leader r.role) (now + timeout) ((now, r) ∷ seen)

unfoldable pub wait_caught_up : (timeout now : ℕ) → Raft → List (ℕ × Raft) → Option Bool
unfolding wait_applied
wait_caught_up timeout now r seen = wait_applied (last_index r) timeout now r seen

-- What the two waits of `add_agent` see of the clock and of the shard: the time of each call, and
-- the wake-ups after it.
pub record Waits (F : Type 0) : Type 0 where
  pub timeout : ℕ
  pub start : ℕ
  pub catching_up : List (ℕ × ShardStateMachine F)
  pub proposed : ℕ
  pub applying : List (ℕ × ShardStateMachine F)

module _ {F : Type 0} where
  -- `_wait_applied` over looks at the shard: the shard at the look that decides, and the answer.
  unfoldable pub wait_shard_loop :
      (index term : ℕ) (leading : Bool) (deadline : ℕ)
      → List (ℕ × ShardStateMachine F)
      → Option (ShardStateMachine F × Bool)
  unfolding wait_applied_once
  wait_shard_loop index term leading deadline [] = none
  wait_shard_loop index term leading deadline ((now, s) ∷ seen) =
      let rest = wait_shard_loop index term leading deadline seen in
      elim (wait_applied_once index term leading deadline now s.raft) [
        | none ↦ rest
        | some b ↦ some (s, b)
      ]

  unfoldable pub wait_shard :
      (index timeout now : ℕ)
      → ShardStateMachine F
      → List (ℕ × ShardStateMachine F)
      → Option (ShardStateMachine F × Bool)
  unfolding wait_shard_loop
  wait_shard index timeout now s seen =
      wait_shard_loop index s.raft.current_term (is_leader s.raft.role) (now + timeout)
        ((now, s) ∷ seen)

  unfoldable pub new_shard : Config → (timeout : ℕ) → ShardStateMachine F
  unfolding init
  new_shard config timeout = record { raft = init config timeout; agents = [] }

  -- The dict comprehension over a list of agents.
  unfoldable pub insert_all : List (AgentState F) → Dict (AgentState F) → Dict (AgentState F)
  unfolding insert
  insert_all [] d = d
  insert_all (a ∷ rest) d = insert_all rest (insert a.id a d)

  abbrev pub caught_up : ShardStateMachine F → Bool
  caught_up s = leb (last_index s.raft) s.raft.last_applied

  module _ (json : Json F) where
    -- `_apply`: an empty command is a new leader's no-op. `none` is an exception of the parser.
    unfoldable pub apply : LogEntry → ShardStateMachine F → Option (ShardStateMachine F)
    unfolding insert_all
    apply entry s = elim entry.command [
      | [] ↦ some s
      | b ∷ bs ↦ elim (json.loads (b ∷ bs)) [
        | none ↦ none
        | some found ↦ some (record s { agents = insert_all found [] })
      ]
    ]

    abbrev pub snapshot : ShardStateMachine F → List ℕ
    snapshot s = json.dumps (values s.agents)

    unfoldable pub propose_tick : ShardStateMachine F → ShardStateMachine F
    unfolding propose
    propose_tick s = record s { raft = (propose s.raft (snapshot s)).0 }

    -- `add_agent` once it has caught up: the new state, `before`, and what `propose` returned of
    -- use, the index and whether this node leads.
    unfoldable pub add_agent_begin :
        AgentState F → ShardStateMachine F → ShardStateMachine F × Dict (AgentState F) × ℕ × Bool
    unfolding propose insert
    add_agent_begin a s =
        let added = record s { agents = insert a.id a s.agents } in
        let (r, index, term, leads) = propose s.raft (snapshot added) in
        (record added { raft = r }, s.agents, index, leads)

    -- Its end, given whether this node led and the entry was applied in time.
    unfoldable pub add_agent_end :
        (before : Dict (AgentState F)) (committed : Bool)
        → ShardStateMachine F
        → ShardStateMachine F × Bool
    add_agent_end before committed s =
        if committed then (s, true) else (record s { agents = before }, false)

    -- `add_agent`, with what its waits see: the shard after the call, in which only the node has
    -- moved on, and the answer; `none` if it still waits then.
    unfoldable pub add_agent :
        Waits F → AgentState F → ShardStateMachine F → Option (ShardStateMachine F × Bool)
    unfolding wait_shard add_agent_begin add_agent_end
    add_agent waits a s =
        elim (wait_shard (last_index s.raft) waits.timeout waits.start s waits.catching_up) [
          | none ↦ none
          | some (s', false) ↦ some (s', false)
          | some (s', true) ↦
              let (proposed, before, index, leads) = add_agent_begin a s' in
              if leads
              then (elim (wait_shard index waits.timeout waits.proposed proposed waits.applying) [
                | none ↦ none
                | some (t, applied) ↦ some (add_agent_end before applied t)
              ])
              else some (add_agent_end before false proposed)
        ]
