-- ===== src/Shard/Handoff/Fence.antt =====
-- sharding/handoff.py: what an accepted hand-off has seen.
use dssd.Prelude.{◌≡◌, inl, inr, true, false, some, ◌==◌, Bool-cases, Option-cases, arith}
use dssd.Raft.State.{is_leader}
use dssd.Shard.State.{Json, ShardStateMachine, Waits, add_agent}
use dssd.Shard.State.Adding.{Adds, add_agent-Adds}
use dssd.Shard.Handoff.{HandOffRequest, HandOffResponse, hand_off, check}

module _ {F : Type 0} (json : Json F) where
  -- The destination led the shard in the request's term, and has added the agent.
  pub record Accepts (waits : Waits F) (request : HandOffRequest F) (s t : ShardStateMachine F)
      : Type 0 where
    pub leader : is_leader s.raft.role ≡ true
    pub term : s.raft.current_term ≡ request.term
    pub added : Adds json waits request.agent s t

  hand_off-added :
      (waits : Waits F) (request : HandOffRequest F) (s t : ShardStateMachine F)
      (response : HandOffResponse)
      → hand_off json waits request (some s) ≡ some (some t, response)
      → response.accepted ≡ true
      → is_leader s.raft.role ≡ true
      → (s.raft.current_term == request.term) ≡ true
      → add_agent json waits request.agent s ≡ some (t, true)
  unfolding hand_off check
  hand_off-added waits request s t response h yes' leads same =
      elim (Option-cases (add_agent json waits request.agent s)) [
        | inl e ↦ ground (arith, e, h, leads, same)
        | inr ((u, false), e) ↦ ground (arith, e, h, leads, same, yes')
        | inr ((u, true), e) ↦ ground (arith, e, h, leads, same)
      ]

  -- If a hand-off to a shard that the server hosts is accepted, then the server led the shard in
  -- the term of the request. At some look of its first wait the node still led this term and had
  -- applied all that was in its log at the call; there it proposed one entry, of this term,
  -- behind its log, with the agents that it had then and the new one. At some look of its second
  -- wait the node still led this term and had applied up to the entry's index, and this shard is
  -- the one that is left.
  pub hand_off-Accepts :
      (waits : Waits F) (request : HandOffRequest F) (s t : ShardStateMachine F)
      (response : HandOffResponse)
      → hand_off json waits request (some s) ≡ some (some t, response)
      → response.accepted ≡ true
      → Accepts waits request s t
  unfolding hand_off check
  hand_off-Accepts waits request s t response h yes' = elim (Bool-cases (is_leader s.raft.role)) [
    | inr no' ↦ ground (arith, no', h, yes')
    | inl leads ↦ elim (Bool-cases (s.raft.current_term == request.term)) [
      | inr other ↦ ground (arith, leads, other, h, yes')
      | inl same ↦ record {
        leader = leads;
        term = ground (arith, same);
        added =
            add_agent-Adds json waits request.agent s t
              (hand_off-added waits request s t response h yes' leads same);
      }
    ]
  ]
