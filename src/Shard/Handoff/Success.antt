-- ===== src/Shard/Handoff/Success.antt =====
-- sharding/handoff.py: a hand-off that goes well.
use dssd.Prelude.{
  ℕ, ◌≤◌, ◌<◌, ◌+◌, ◌≡◌, ◌≢◌, refl, sym, subst, ap, ◌∙◌, ◌⊎◌, inl, inr, true, false, some, List, [],
  ◌∷◌, length, Bool-cases, leb, arith,
}
use dssd.Raft.State.{is_leader, last_index}
use dssd.Shard.State.{
  Json, ShardStateMachine, Waits, wait_applied_once, wait_shard_loop, wait_shard, add_agent,
  add_agent_begin, add_agent_end,
}
use dssd.Shard.World.{AgentState}
use dssd.Shard.State.Adding.{add_agent_begin-Begins}
use dssd.Shard.Handoff.{HandOffRequest, accepted, hand_off, check}

module _ {F : Type 0} where
  -- At each of these looks the node leads the term, and the time is not up.
  abbrev pub IsSteady : (term deadline : ℕ) → List (ℕ × ShardStateMachine F) → Type 0
  IsSteady term deadline [] = Unit
  IsSteady term deadline ((now, s) ∷ looks) =
      (s.raft.current_term ≡ term)
      × (is_leader s.raft.role ≡ true)
      × (now < deadline)
      × IsSteady term deadline looks

  -- At one of them it has applied the index.
  abbrev pub HasApplied : ℕ → List (ℕ × ShardStateMachine F) → Type 0
  HasApplied index [] = ⊥
  HasApplied index ((now, s) ∷ looks) = (index ≤ s.raft.last_applied) ⊎ HasApplied index looks

  look-applied :
      (index term deadline now : ℕ) (s : ShardStateMachine F)
      (looks : List (ℕ × ShardStateMachine F))
      → s.raft.current_term ≡ term
      → is_leader s.raft.role ≡ true
      → index ≤ s.raft.last_applied
      → wait_shard_loop index term true deadline ((now, s) ∷ looks) ≡ some (s, true)
  unfolding wait_shard_loop wait_applied_once
  look-applied index term deadline now s looks same leads at = ground (arith, same, leads)

  look-waits :
      (index term deadline now : ℕ) (s : ShardStateMachine F)
      (looks : List (ℕ × ShardStateMachine F))
      → s.raft.current_term ≡ term
      → is_leader s.raft.role ≡ true
      → now < deadline
      → leb index s.raft.last_applied ≢ true
      → wait_shard_loop index term true deadline ((now, s) ∷ looks)
        ≡ wait_shard_loop index term true deadline looks
  unfolding wait_shard_loop wait_applied_once
  look-waits index term deadline now s looks same leads early behind = ground (arith, same, leads)

  wait_shard_loop-succeeds :
      (index term deadline : ℕ) (looks : List (ℕ × ShardStateMachine F))
      → IsSteady term deadline looks
      → HasApplied index looks
      → (t : ShardStateMachine F) × (wait_shard_loop index term true deadline looks
          ≡ some (t, true))
  wait_shard_loop-succeeds index term deadline [] v h = absurd h
  wait_shard_loop-succeeds index term deadline ((now, s) ∷ looks) (same, leads, early, v) h =
      elim (Bool-cases (leb index s.raft.last_applied)) [
        | inl at ↦ (s, look-applied index term deadline now s looks same leads (ground arith))
        | inr behind ↦
            let (t, e) = wait_shard_loop-succeeds index term deadline looks v (later h behind) in
            (t, look-waits index term deadline now s looks same leads early (ground arith) ∙ e)
      ]
    where
      later :
          HasApplied index ((now, s) ∷ looks)
          → leb index s.raft.last_applied ≡ false
          → HasApplied index looks
      later (inl at) behind = absurd (ground arith)
      later (inr rest) behind = rest

  wait_shard-succeeds :
      (index term timeout now : ℕ) (s : ShardStateMachine F) (seen : List (ℕ × ShardStateMachine F))
      → IsSteady term (now + timeout) ((now, s) ∷ seen)
      → HasApplied index ((now, s) ∷ seen)
      → (t : ShardStateMachine F) × (wait_shard index timeout now s seen ≡ some (t, true))
  unfolding wait_shard
  wait_shard-succeeds index term timeout now s seen v h =
      let (t, e) = wait_shard_loop-succeeds index term (now + timeout) ((now, s) ∷ seen) v h in
      (
        t,
        ap (λ k. wait_shard_loop index k (is_leader s.raft.role) (now + timeout) ((now, s) ∷ seen))
              v.0
            ∙ ap (λ b. wait_shard_loop index term b (now + timeout) ((now, s) ∷ seen)) v.1
            ∙ e,
      )

  wait_shard-at_once :
      (index timeout now : ℕ) (s : ShardStateMachine F) (seen : List (ℕ × ShardStateMachine F))
      → is_leader s.raft.role ≡ true
      → index ≤ s.raft.last_applied
      → wait_shard index timeout now s seen ≡ some (s, true)
  unfolding wait_shard
  wait_shard-at_once index timeout now s seen leads at =
      ap (λ b. wait_shard_loop index s.raft.current_term b (now + timeout) ((now, s) ∷ seen)) leads
      ∙ look-applied index s.raft.current_term (now + timeout) now s seen refl leads at

  module _ (json : Json F) where
    add_agent-returns :
        (waits : Waits F) (a : AgentState F) (s ready t : ShardStateMachine F)
        → wait_shard (last_index s.raft) waits.timeout waits.start s waits.catching_up
          ≡ some (ready, true)
        → (add_agent_begin json a ready).3 ≡ true
        → wait_shard
            (add_agent_begin json a ready).2
            waits.timeout
            waits.proposed
            (add_agent_begin json a ready).0
            waits.applying
          ≡ some (t, true)
        → add_agent json waits a s ≡ some (t, true)
    unfolding add_agent add_agent_end
    add_agent-returns waits a s ready t e l f = ground (arith, e, l, f)

    add_agent-succeeds :
        (waits : Waits F) (a : AgentState F) (s : ShardStateMachine F) (term : ℕ)
        → is_leader s.raft.role ≡ true
        → last_index s.raft ≤ s.raft.last_applied
        → IsSteady term
            (waits.proposed + waits.timeout)
            ((waits.proposed, (add_agent_begin json a s).0) ∷ waits.applying)
        → HasApplied (length s.raft.log) waits.applying
        → (t : ShardStateMachine F) × (add_agent json waits a s ≡ some (t, true))
    add_agent-succeeds waits a s term leads ready steady applied =
        let b = add_agent_begin-Begins json a s leads in
        let (t, e) =
          wait_shard-succeeds (add_agent_begin json a s).2 term waits.timeout waits.proposed
            (add_agent_begin json a s).0 waits.applying steady
            (inr (subst (λ k. HasApplied k waits.applying) (sym b.index) applied)) in
        (
          t,
          add_agent-returns waits a s s t
              (wait_shard-at_once (last_index s.raft) waits.timeout waits.start s waits.catching_up
                leads ready)
              b.leads e,
        )

    -- Let a server lead a shard in the term of a hand-off request and have applied its whole log
    -- at the call. If, from its proposal of the agent on, it leads this term at every look,
    -- before the time is up, and has applied up to the index behind its old log at one of them,
    -- then the hand-off returns, and accepts the agent.
    pub hand_off-succeeds :
        (waits : Waits F) (request : HandOffRequest F) (s : ShardStateMachine F)
        → is_leader s.raft.role ≡ true
        → s.raft.current_term ≡ request.term
        → last_index s.raft ≤ s.raft.last_applied
        → IsSteady request.term
            (waits.proposed + waits.timeout)
            ((waits.proposed, (add_agent_begin json request.agent s).0) ∷ waits.applying)
        → HasApplied (length s.raft.log) waits.applying
        → (t : ShardStateMachine F) × (hand_off json waits request (some s)
            ≡ some (some t, record { accepted = true; reason = accepted }))
    unfolding hand_off check
    hand_off-succeeds waits request s leads same ready steady applied =
        let (t, e) =
          add_agent-succeeds waits request.agent s request.term leads ready steady applied in
        (t, ground (arith, leads, same, e))
