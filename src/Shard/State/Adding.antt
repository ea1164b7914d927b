-- ===== src/Shard/State/Adding.antt =====
-- sharding/shard_state.py: what an addition that is confirmed has seen.
use mathlib.Core.List.{Memᴰ}
use dssd.Prelude.{
  ℕ, ◌≤◌, ◌+◌, ◌≡◌, refl, sym, ap, subst, ◌∙◌, some_inj, inl, inr, Bool, true, false, some, List,
  [], ◌∷◌, ◌++◌, length, insert, Option-cases, arith,
}
use dssd.Raft.State.{is_leader, last_index, propose}
use dssd.Shard.World.{AgentState}
use dssd.Shard.State.{
  Json, ShardStateMachine, Waits, wait_applied_once, wait_shard_loop, wait_shard, snapshot,
  add_agent, add_agent_begin, add_agent_end,
}

module _ {F : Type 0} where
  -- At one of these looks the shard is `t`; its node leads the term and has applied the index.
  pub record Sees (index term : ℕ) (looks : List (ℕ × ShardStateMachine F))
      (t : ShardStateMachine F) : Type 0 where
    pub now : ℕ
    pub look : Memᴰ (now, t) looks
    pub term_then : t.raft.current_term ≡ term
    pub leads : is_leader t.raft.role ≡ true
    pub applied : index ≤ t.raft.last_applied

  once :
      (index term : ℕ) (leading : Bool) (deadline now : ℕ) (s : ShardStateMachine F)
      (looks : List (ℕ × ShardStateMachine F))
      → wait_applied_once index term leading deadline now s.raft ≡ some true
      → Sees index term ((now, s) ∷ looks) s
  unfolding wait_applied_once
  once index term leading deadline now s looks h = record {
    now = now;
    look = Memᴰ.head refl;
    term_then = ground arith;
    leads = ground arith;
    applied = ground arith;
  }

  wait_shard_loop-cons :
      (index term : ℕ) (leading : Bool) (deadline now : ℕ) (s : ShardStateMachine F)
      (looks : List (ℕ × ShardStateMachine F)) (b : Bool)
      → wait_applied_once index term leading deadline now s.raft ≡ some b
      → wait_shard_loop index term leading deadline ((now, s) ∷ looks) ≡ some (s, b)
  unfolding wait_shard_loop
  wait_shard_loop-cons index term leading deadline now s looks b e = rw (e, wait_shard_loop) refl

  wait_shard_loop-Sees :
      (index term : ℕ) (leading : Bool) (deadline : ℕ) (looks : List (ℕ × ShardStateMachine F))
      (t : ShardStateMachine F)
      → wait_shard_loop index term leading deadline looks ≡ some (t, true)
      → Sees index term looks t
  unfolding wait_shard_loop
  wait_shard_loop-Sees index term leading deadline [] t h = ground arith
  wait_shard_loop-Sees index term leading deadline ((now, s) ∷ looks) t h =
      elim (Option-cases (wait_applied_once index term leading deadline now s.raft)) [
        | inl e ↦
            let w =
              wait_shard_loop-Sees index term leading deadline looks t (ground (arith, e, h)) in
            record {
              now = w.now;
              look = Memᴰ.tail w.look;
              term_then = w.term_then;
              leads = w.leads;
              applied = w.applied;
            }
        | inr (false, e) ↦ ground (arith, e, h)
        | inr (true, e) ↦
            subst (Sees index term ((now, s) ∷ looks))
              (ap (λ p. p.0)
                (some_inj
                  (sym (wait_shard_loop-cons index term leading deadline now s looks true e) ∙ h)))
              (once index term leading deadline now s looks e)
      ]

  wait_shard-Sees :
      (index timeout now : ℕ) (s : ShardStateMachine F) (seen : List (ℕ × ShardStateMachine F))
      (t : ShardStateMachine F)
      → wait_shard index timeout now s seen ≡ some (t, true)
      → Sees index s.raft.current_term ((now, s) ∷ seen) t
  unfolding wait_shard
  wait_shard-Sees index timeout now s seen t h =
      wait_shard_loop-Sees index s.raft.current_term (is_leader s.raft.role) (now + timeout)
        ((now, s) ∷ seen) t h

  module _ (json : Json F) where
    -- From the shard `s` the call has added the agent, and left `t`. The first wait ended at the
    -- look `ready`: what was in the log at the call was applied, and the node still led the term.
    -- It then proposed one entry, with the agents of that look and the new one, and the second wait
    -- ended at the look `t`: the entry's index was applied, and the node still led the term.
    pub record Adds (waits : Waits F) (a : AgentState F) (s t : ShardStateMachine F) : Type 0 where
      pub ready : ShardStateMachine F
      pub caught_up :
          Sees (last_index s.raft) s.raft.current_term ((waits.start, s) ∷ waits.catching_up) ready
      pub proposed : ShardStateMachine F
      pub agents : proposed.agents ≡ insert a.id a ready.agents
      pub log :
          proposed.raft.log
          ≡ ready.raft.log
            ++ record {
              term = s.raft.current_term;
              index = length ready.raft.log;
              command = snapshot json proposed;
            }
              ∷ []
      pub applied :
          Sees
            (length ready.raft.log)
            s.raft.current_term
            ((waits.proposed, proposed) ∷ waits.applying)
            t

    -- What a leader proposes.
    pub record Begins (a : AgentState F) (ready : ShardStateMachine F) : Type 0 where
      pub agents : (add_agent_begin json a ready).0.agents ≡ insert a.id a ready.agents
      pub index : (add_agent_begin json a ready).2 ≡ length ready.raft.log
      pub leads : (add_agent_begin json a ready).3 ≡ true
      pub term : (add_agent_begin json a ready).0.raft.current_term ≡ ready.raft.current_term
      pub log :
          (add_agent_begin json a ready).0.raft.log
          ≡ ready.raft.log
            ++ record {
              term = ready.raft.current_term;
              index = length ready.raft.log;
              command = snapshot json (add_agent_begin json a ready).0;
            }
              ∷ []

    pub add_agent_begin-Begins :
        (a : AgentState F) (ready : ShardStateMachine F)
        → is_leader ready.raft.role ≡ true
        → Begins a ready
    unfolding add_agent_begin propose
    add_agent_begin-Begins a ready h = record {
      agents = refl;
      index = rw h refl;
      leads = rw h refl;
      term = rw h refl;
      log = rw h refl;
    }

    add_agent-applies :
        (waits : Waits F) (a : AgentState F) (s ready t : ShardStateMachine F)
        → wait_shard (last_index s.raft) waits.timeout waits.start s waits.catching_up
          ≡ some (ready, true)
        → (add_agent_begin json a ready).3 ≡ true
        → add_agent json waits a s ≡ some (t, true)
        → wait_shard
            (add_agent_begin json a ready).2
            waits.timeout
            waits.proposed
            (add_agent_begin json a ready).0
            waits.applying
          ≡ some (t, true)
    unfolding add_agent add_agent_end
    add_agent-applies waits a s ready t e l h =
        elim (Option-cases (
          wait_shard (add_agent_begin json a ready).2 waits.timeout waits.proposed
            (add_agent_begin json a ready).0 waits.applying)) [
              | inl f ↦ ground (arith, e, l, f, h)
              | inr ((u, false), f) ↦ ground (arith, e, l, f, h)
              | inr ((u, true), f) ↦ ground (arith, e, l, f, h)
            ]

    add_agent-ready :
        (waits : Waits F) (a : AgentState F) (s t : ShardStateMachine F)
        → add_agent json waits a s ≡ some (t, true)
        → (ready : ShardStateMachine F) × (wait_shard
              (last_index s.raft)
              waits.timeout
              waits.start
              s
              waits.catching_up
            ≡ some (ready, true))
    unfolding add_agent
    add_agent-ready waits a s t h =
        elim (Option-cases
          (wait_shard (last_index s.raft) waits.timeout waits.start s waits.catching_up)) [
            | inl e ↦ ground (arith, e, h)
            | inr ((u, false), e) ↦ ground (arith, e, h)
            | inr ((u, true), e) ↦ (u, e)
          ]

    pub add_agent-Adds :
        (waits : Waits F) (a : AgentState F) (s t : ShardStateMachine F)
        → add_agent json waits a s ≡ some (t, true)
        → Adds waits a s t
    add_agent-Adds waits a s t h =
        let (ready, e) = add_agent-ready waits a s t h in
        let w = wait_shard-Sees _ waits.timeout waits.start s waits.catching_up ready e in
        let b = add_agent_begin-Begins a ready w.leads in
        let f = add_agent-applies waits a s ready t e b.leads h in
        let x = wait_shard-Sees _ waits.timeout waits.proposed _ waits.applying t f in
        record {
          ready = ready;
          caught_up = w;
          proposed = (add_agent_begin json a ready).0;
          agents = b.agents;
          log =
              subst
                (λ k.
                  (add_agent_begin json a ready).0.raft.log
                  ≡ ready.raft.log
                    ++ record {
                      term = k;
                      index = length ready.raft.log;
                      command = snapshot json (add_agent_begin json a ready).0;
                    }
                      ∷ [])
                w.term_then b.log;
          applied =
              subst
                (λ k.
                  Sees k s.raft.current_term
                    ((waits.proposed, (add_agent_begin json a ready).0) ∷ waits.applying) t)
                b.index
                (subst
                  (λ k.
                    Sees (add_agent_begin json a ready).2 k
                      ((waits.proposed, (add_agent_begin json a ready).0) ∷ waits.applying) t)
                  (b.term ∙ w.term_then) x);
        }
