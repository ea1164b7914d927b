-- ===== src/Shard/State/Snapshot.antt =====
-- sharding/shard_state.py: a snapshot that is applied restores the agents it was taken of.
use dssd.Prelude.{
  ℕ, ◌≡◌, ◌≢◌, refl, String, true, false, Option, none, some, List, [], ◌∷◌, Dict, lookup, insert,
  keys, values, contains, str_eq, str_eq→eq, ◌||◌, if◌then◌else◌, arith, eq_iff, lookup-insert,
  Bool-cases, inl, inr, length, get_elem?, get_elem?-append, ◌∙◌,
}
use dssd.Raft.State.{Raft, LogEntry, propose, is_leader}
use dssd.Shard.World.{AgentState}
use dssd.Shard.State.{Json, ShardStateMachine, insert_all, apply, add_agent_begin}

-- Each agent stands under its own id, and under no other.
abbrev pub IsKeyed : {F : Type 0} → Dict (AgentState F) → Type 0
IsKeyed [] = Unit
IsKeyed ((j, a) ∷ d) = (j ≡ a.id) × (contains (keys d) j ≡ false) × IsKeyed d

-- What the json library does for these agents: it reads what it has written, which is not empty.
pub record IsJson {F : Type 0} (json : Json F) (l : List (AgentState F)) : Type 0 where
  pub reads : json.loads (json.dumps l) ≡ some l
  pub nonempty : json.dumps l ≢ []

propose-index :
    (r : Raft) (command : List ℕ) → is_leader r.role ≡ true → (propose r command).1 ≡ length r.log
unfolding propose
propose-index r command h = rw h refl

propose-leads :
    (r : Raft) (command : List ℕ) → is_leader r.role ≡ true → (propose r command).3 ≡ true
unfolding propose
propose-leads r command h = rw h refl

module _ {F : Type 0} where
  lookup-absent :
      (j : String) (d : Dict (AgentState F)) → contains (keys d) j ≡ false → lookup j d ≡ none
  unfolding lookup
  lookup-absent j [] h = refl
  lookup-absent j ((i, a) ∷ d) h = ground (arith, lookup-absent j d)

  lookup-insert_all :
      (j : String) (d e : Dict (AgentState F))
      → IsKeyed d
      → lookup j (insert_all (values d) e)
        ≡ (elim (lookup j d) [ none ↦ lookup j e | some a ↦ some a ])
  unfolding insert_all lookup
  lookup-insert_all j [] e v = refl
  lookup-insert_all j ((i, a) ∷ d) e (own, new, v) = ground (
    arith,
    eq_iff i j,
    own,
    lookup-absent i d new,
    lookup-insert_all j d (insert a.id a e) v,
    lookup-insert a.id j a e,
  )

  contains-keys-insert :
      (j k : String) (a : AgentState F) (d : Dict (AgentState F))
      → contains (keys (insert k a d)) j ≡ (str_eq k j || contains (keys d) j)
  unfolding insert
  contains-keys-insert j k a [] = refl
  contains-keys-insert j k a ((i, b) ∷ d) =
      ground (arith, eq_iff i k, eq_iff i j, eq_iff k j, contains-keys-insert j k a d)

  pub insert-IsKeyed :
      (a : AgentState F) (d : Dict (AgentState F)) → IsKeyed d → IsKeyed (insert a.id a d)
  unfolding insert
  insert-IsKeyed a [] v = (refl, refl, tt)
  insert-IsKeyed a ((i, b) ∷ d) (own, new, v) = elim (Bool-cases (str_eq i a.id)) [
    | inl here ↦ rw here (str_eq→eq i a.id here, new, v)
    | inr other ↦ rw other (
      own,
      rw (contains-keys-insert i a.id a d, new) (ground (arith, eq_iff i a.id, eq_iff a.id i)),
      insert-IsKeyed a d v,
    )
  ]

  module _ (json : Json F) where
    -- An entry whose command is a snapshot of these agents.
    pub apply-dumps :
        (entry : LogEntry) (d : Dict (AgentState F)) (s : ShardStateMachine F)
        → IsJson json (values d)
        → entry.command ≡ json.dumps (values d)
        → apply json entry s ≡ some (record s { agents = insert_all (values d) [] })
    unfolding apply
    apply-dumps entry d s spec e = ground (arith, e, spec.reads, spec.nonempty)

    -- Any replica that applies such an entry has these agents.
    pub lookup-apply-dumps :
        (entry : LogEntry) (d : Dict (AgentState F)) (s : ShardStateMachine F)
        → IsJson json (values d)
        → entry.command ≡ json.dumps (values d)
        → IsKeyed d
        → (s' : ShardStateMachine F) × (apply json entry s ≡ some s')
          × ((j : String) → lookup j s'.agents ≡ lookup j d)
    unfolding lookup
    lookup-apply-dumps entry d s spec e v = (
      record s { agents = insert_all (values d) [] },
      apply-dumps entry d s spec e,
      λ j. lookup-insert_all j d [] v ∙ same (lookup j d),
    )
      where
        same : (o : Option (AgentState F)) → (elim o [ none ↦ none | some a ↦ some a ]) ≡ o
        same none = refl
        same (some a) = refl

  -- The entry at this index of the log gives every replica that applies it the agents `d`.
  pub record Holds (json : Json F) (r : Raft) (index : ℕ) (d : Dict (AgentState F)) : Type 0 where
    pub entry : LogEntry
    pub place : get_elem? r.log index ≡ some entry
    pub term : entry.term ≡ r.current_term
    pub gives :
        (t : ShardStateMachine F)
        → (t' : ShardStateMachine F) × (apply json entry t ≡ some t')
          × ((j : String) → lookup j t'.agents ≡ lookup j d)

  pub propose-Holds :
      (json : Json F) (r : Raft) (d : Dict (AgentState F))
      → IsJson json (values d)
      → IsKeyed d
      → is_leader r.role ≡ true
      → Holds json (propose r (json.dumps (values d))).0 (length r.log) d
  propose-Holds json r d spec v h =
      unfold propose in
      rw h record {
        entry = record {
          term = r.current_term;
          index = length r.log;
          command = json.dumps (values d);
        };
        place = get_elem?-append r.log _;
        term = refl;
        gives = λ t. lookup-apply-dumps json _ d t spec refl v;
      }

  -- What `add_agent` has done when it begins to wait.
  pub record Proposes (json : Json F) (a : AgentState F) (s : ShardStateMachine F) : Type 0 where
    pub leads : (add_agent_begin json a s).3 ≡ true
    pub before : (add_agent_begin json a s).1 ≡ s.agents
    pub durable :
        Holds json
          (add_agent_begin json a s).0.raft
          (add_agent_begin json a s).2
          (add_agent_begin json a s).0.agents
    pub agents :
        (j : String)
        → lookup j (add_agent_begin json a s).0.agents
          ≡ (if str_eq a.id j then some a else lookup j s.agents)

  -- If the json library reads the list of agents back as it wrote it, and each agent stands under
  -- its own id, then a leader that adds an agent puts an entry of its term at the index it goes
  -- on to wait for, and every replica that applies this entry has the agent and the others as
  -- before.
  pub add_agent_begin-Proposes :
      (json : Json F) (a : AgentState F) (s : ShardStateMachine F)
      → IsJson json (values (insert a.id a s.agents))
      → IsKeyed s.agents
      → is_leader s.raft.role ≡ true
      → Proposes json a s
  unfolding add_agent_begin
  add_agent_begin-Proposes json a s spec v h = record {
    leads = propose-leads s.raft _ h;
    before = refl;
    durable =
        rw (propose-index s.raft (json.dumps (values (insert a.id a s.agents))) h)
          (propose-Holds json s.raft (insert a.id a s.agents) spec (insert-IsKeyed a s.agents v) h);
    agents = λ j. lookup-insert a.id j a s.agents;
  }
