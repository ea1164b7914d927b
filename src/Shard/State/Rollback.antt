-- ===== src/Shard/State/Rollback.antt =====
-- sharding/shard_state.py: waiting for an entry, and what `add_agent` does when it waits in vain.
use dssd.Prelude.{
  ℕ, ◌≤◌, ◌+◌, ◌≡◌, sym, ap, ◌∙◌, inl, inr, String, Bool, true, false, none, some, List, [], ◌∷◌,
  Dict, lookup, values, length, arith, some_inj, Option-cases, ◌⊎◌,
}
use dssd.Raft.State.{Raft, LogEntry, is_leader}
use dssd.Shard.World.{AgentState}
use dssd.Shard.State.{
  Json, ShardStateMachine, apply, add_agent_begin, add_agent_end, propose_tick, wait_applied_once,
  wait_applied_loop, wait_applied,
}
use dssd.Shard.State.Snapshot.{IsKeyed, IsJson, Holds, propose-Holds, lookup-apply-dumps}

-- At one of these looks the node leads the term and has applied the entry.
abbrev pub SeenApplied : (index term : ℕ) → List (ℕ × Raft) → Type 0
SeenApplied index term [] = ⊥
SeenApplied index term ((now, r) ∷ seen) =
    ((r.current_term ≡ term) × (is_leader r.role ≡ true) × (index ≤ r.last_applied))
    ⊎ SeenApplied index term seen

wait_applied_loop-SeenApplied :
    (index term : ℕ) (leading : Bool) (deadline : ℕ) (seen : List (ℕ × Raft))
    → wait_applied_loop index term leading deadline seen ≡ some true
    → SeenApplied index term seen
unfolding wait_applied_loop wait_applied_once
wait_applied_loop-SeenApplied index term leading deadline [] h = ground arith
wait_applied_loop-SeenApplied index term leading deadline ((now, r) ∷ seen) h =
    elim (Option-cases (wait_applied_once index term leading deadline now r)) [
      | inl e ↦
          inr
            (wait_applied_loop-SeenApplied index term leading deadline seen (ground (arith, e, h)))
      | inr (b, e) ↦ inl (ground (arith, e, h))
    ]

-- If waiting for an index returns true, then at one of its looks the node led the term in which
-- the wait began, and had applied at least as far as the index.
pub wait_applied-SeenApplied :
    (index timeout now : ℕ) (r : Raft) (seen : List (ℕ × Raft))
    → wait_applied index timeout now r seen ≡ some true
    → SeenApplied index r.current_term ((now, r) ∷ seen)
unfolding wait_applied
wait_applied-SeenApplied index timeout now r seen h =
    wait_applied_loop-SeenApplied index r.current_term (is_leader r.role) (now + timeout)
      ((now, r) ∷ seen) h

module _ {F : Type 0} where
  -- Agent `k`, which this node had when it rolled back, is missing afterwards, and from every
  -- replica that applies the node's next snapshot.
  pub record Loses (json : Json F) (k : String) (c : AgentState F) (before : Dict (AgentState F))
      (t : ShardStateMachine F) : Type 0 where
    pub had : lookup k t.agents ≡ some c
    pub missing : lookup k (add_agent_end json before false t).0.agents ≡ none
    pub erased :
        (r : Raft)
        → is_leader r.role ≡ true
        → Holds json
            (propose_tick json (record (add_agent_end json before false t).0 { raft = r })).raft
            (length r.log)
            before

  -- If an entry with agents that the json library reads back is applied while add_agent waits,
  -- and add_agent then gives up, the agents it restores lack every agent that is new in the
  -- entry, and a snapshot that this node proposes as a leader, before it applies anything else,
  -- takes the agents from every replica that applies it.
  pub add_agent_end-Loses :
      (json : Json F) (a c : AgentState F) (k : String) (s t : ShardStateMachine F)
      (entry : LogEntry) (d : Dict (AgentState F))
      → IsJson json (values s.agents)
      → IsJson json (values d)
      → IsKeyed s.agents
      → IsKeyed d
      → entry.command ≡ json.dumps (values d)
      → lookup k s.agents ≡ none
      → lookup k d ≡ some c
      → apply json entry (add_agent_begin json a s).0 ≡ some t
      → Loses json k c (add_agent_begin json a s).1 t
  unfolding add_agent_begin
  add_agent_end-Loses json a c k s t entry d spec spec_d v w e old new h = record {
    had =
        let (t', applied, same) =
          lookup-apply-dumps json entry d (add_agent_begin json a s).0 spec_d e w in
        ap (λ u. lookup k u.agents) (some_inj (sym h ∙ applied)) ∙ same k ∙ new;
    missing = unfold add_agent_end in old;
    erased =
        λ r leads. unfold add_agent_end propose_tick in propose-Holds json r s.agents spec v leads;
  }
