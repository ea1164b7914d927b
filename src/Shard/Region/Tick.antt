-- ===== src/Shard/Region/Tick.antt =====
-- sharding/region_server.py: what a tick does to an agent.
use dssd.Prelude.{
  ◌≡◌, refl, sym, ap, subst, ◌∙◌, ◌⊎◌, inl, inr, String, Bool, true, false, ◌&&◌, if◌then◌else◌,
  none, some, List, [], ◌∷◌, ◌++◌, Dict, lookup, str_eq, arith, Bool-cases, Option-cases, some_inj,
}
use dssd.Raft.State.{is_leader}
use dssd.Shard.World.{Python, GridConfig, AgentState, step, shard_id_for}
use dssd.Shard.State.{Json, ShardStateMachine, caught_up, propose_tick}
use dssd.Shard.Region.{
  Departure, move_all, leaving, tick_shard, tick_shards, record_accepted, finish_shards,
}
use dssd.Shard.Region.Keep.{
  HasAgent, was_accepted, AgentIs, listed-record_accepted, lookup-move_all, finish_shards-AgentIs,
}

lookup_here :
    {V : Type 0} (j k : String) (v : V) (d : Dict V)
    → str_eq j k ≡ true
    → lookup k ((j, v) ∷ d) ≡ some v
unfolding lookup
lookup_here j k v d h = rw h refl

lookup_there :
    {V : Type 0} (j k : String) (v : V) (d : Dict V)
    → str_eq j k ≡ false
    → lookup k ((j, v) ∷ d) ≡ lookup k d
unfolding lookup
lookup_there j k v d h = rw h refl

module _ {F : Type 0} (py : Python F) (json : Json F) (dt : F) (grid : GridConfig F) where
  -- Agent `k` of this shard is where it was, or one step on.
  pub record Stays (k : String) (a : AgentState F) (s : ShardStateMachine F) : Type 0 where
    pub agent : AgentState F
    pub found : lookup k s.agents ≡ some agent
    pub moved : (agent ≡ a) ⊎ (agent ≡ step py dt grid a)

  moved_shard : ShardStateMachine F → ShardStateMachine F
  moved_shard s = propose_tick json (record s { agents = move_all (step py dt grid) s.agents })

  tick_shard-cases :
      (id : String) (s : ShardStateMachine F)
      → (tick_shard py json dt grid id s ≡ some (s, []))
        ⊎ ((ds : List (Departure F)) × (tick_shard py json dt grid id s ≡ some (moved_shard s, ds)))
        ⊎ (tick_shard py json dt grid id s ≡ none)
  unfolding tick_shard moved_shard
  tick_shard-cases id s = elim (Bool-cases (is_leader s.raft.role)) [
    | inr idle ↦ inl (rw idle refl)
    | inl leads ↦ elim (Bool-cases (caught_up s)) [
      | inr behind ↦ inl (rw (leads, behind) refl)
      | inl ready ↦
          elim (Option-cases (
            leaving (λ a. shard_id_for py a.x a.y grid) id (move_all (step py dt grid) s.agents))) [
              | inl e ↦ inr (inr (rw (leads, ready, e) refl))
              | inr (ds, e) ↦ inr (inl (ds, rw (leads, ready, e) refl))
            ]
    ]
  ]

  Stays-same :
      (k : String) (a b : AgentState F) (s s' : ShardStateMachine F)
      → s ≡ s'
      → lookup k s.agents ≡ some b
      → (b ≡ a) ⊎ (b ≡ step py dt grid a)
      → Stays k a s'
  Stays-same k a b s s' e v m = record {
    agent = b;
    found = ap (λ u. lookup k u.agents) (sym e) ∙ v;
    moved = m;
  }

  lookup-moved_shard :
      (k : String) (a : AgentState F) (s : ShardStateMachine F)
      → lookup k s.agents ≡ some a
      → lookup k (moved_shard s).agents ≡ some (step py dt grid a)
  unfolding moved_shard propose_tick
  lookup-moved_shard k a s v = lookup-move_all (step py dt grid) k s.agents a v

  tick_shard-Stays :
      (id k : String) (a : AgentState F) (s s' : ShardStateMachine F) (ds : List (Departure F))
      → tick_shard py json dt grid id s ≡ some (s', ds)
      → lookup k s.agents ≡ some a
      → Stays k a s'
  tick_shard-Stays id k a s s' ds h v = elim (tick_shard-cases id s) [
    | inl e ↦ Stays-same k a a s s' (ap (λ p. p.0) (some_inj (sym e ∙ h))) v (inl refl)
    | inr (inl (es, e)) ↦
        Stays-same k a (step py dt grid a) (moved_shard s) s' (ap (λ p. p.0) (some_inj (sym e ∙ h)))
          (lookup-moved_shard k a s v) (inr refl)
    | inr (inr e) ↦ ground (arith, e, h)
  ]

  -- Agent `k` is still in its shard.
  pub record StaysIn (id k : String) (a : AgentState F) (shards : Dict (ShardStateMachine F))
      : Type 0 where
    pub agent : AgentState F
    pub here : HasAgent id k agent shards
    pub moved : (agent ≡ a) ⊎ (agent ≡ step py dt grid a)

  StaysIn-cons :
      (id k : String) (a : AgentState F) (j : String) (s s' : ShardStateMachine F)
      (shards rest : Dict (ShardStateMachine F)) (ds : List (Departure F))
      → tick_shard py json dt grid j s ≡ some (s', ds)
      → (HasAgent id k a shards → StaysIn id k a rest)
      → HasAgent id k a ((j, s) ∷ shards)
      → StaysIn id k a ((j, s') ∷ rest)
  StaysIn-cons id k a j s s' shards rest ds e ih v = elim (Bool-cases (str_eq j id)) [
    | inl eq ↦
        let same = some_inj (sym (lookup_here j id s shards eq) ∙ v.found) in
        let w = tick_shard-Stays j k a s s' ds e (ap (λ u. lookup k u.agents) same ∙ v.agent) in
        record {
          agent = w.agent;
          here = record { shard = s'; found = lookup_here j id s' rest eq; agent = w.found };
          moved = w.moved;
        }
    | inr ne ↦
        let w = ih (record {
          shard = v.shard;
          found = sym (lookup_there j id s shards ne) ∙ v.found;
          agent = v.agent;
        }) in
        record {
          agent = w.agent;
          here = record {
            shard = w.here.shard;
            found = lookup_there j id s' rest ne ∙ w.here.found;
            agent = w.here.agent;
          };
          moved = w.moved;
        }
  ]

  tick_shards-cons :
      (j : String) (s s' : ShardStateMachine F) (shards rest : Dict (ShardStateMachine F))
      (es fs : List (Departure F))
      → tick_shard py json dt grid j s ≡ some (s', es)
      → tick_shards py json dt grid shards ≡ some (rest, fs)
      → tick_shards py json dt grid ((j, s) ∷ shards) ≡ some ((j, s') ∷ rest, es ++ fs)
  unfolding tick_shards
  tick_shards-cons j s s' shards rest es fs e f = ground (arith, e, f)

  tick_shards-StaysIn :
      (id k : String) (a : AgentState F) (shards shards' : Dict (ShardStateMachine F))
      (ds : List (Departure F))
      → tick_shards py json dt grid shards ≡ some (shards', ds)
      → HasAgent id k a shards
      → StaysIn id k a shards'
  unfolding tick_shards
  tick_shards-StaysIn id k a [] shards' ds h v = unfold lookup in ground (arith, v.found)
  tick_shards-StaysIn id k a ((j, s) ∷ shards) shards' ds h v =
      elim (Option-cases (tick_shard py json dt grid j s)) [
        | inl e ↦ ground (arith, e, h)
        | inr ((s', es), e) ↦ elim (Option-cases (tick_shards py json dt grid shards)) [
          | inl f ↦ ground (arith, e, f, h)
          | inr ((rest, fs), f) ↦
              let made = tick_shards-cons j s s' shards rest es fs e f in
              subst (StaysIn id k a) (ap (λ p. p.0) (some_inj (sym made ∙ h))) (
                StaysIn-cons id k a j s s' shards rest es e
                  (tick_shards-StaysIn id k a shards rest fs f) v)
        ]
      ]

  -- What a tick does to agent `k` of shard `id`: in its first part, which leaves `moved`, and in
  -- its last part, which finds `s` in the place of the shard and leaves `left`.
  pub record Ticks (id k : String) (a : AgentState F) (gone : Bool) (s : ShardStateMachine F)
      (moved left : Dict (ShardStateMachine F)) : Type 0 where
    pub first : StaysIn id k a moved
    pub last : AgentIs id k (if gone then none else lookup k s.agents) left

  -- What a tick does to an agent. After a first part that goes through, each agent that a shard
  -- had is in this shard still, where it was or one step on. In the last part, whatever the
  -- shards have become by then, a shard that is there loses the agent exactly if an answer has
  -- accepted its departure from this shard and waiting for the shard to catch up has succeeded,
  -- and has of it what it had before otherwise.
  pub tick-Ticks :
      (ready : String → Bool) (id k : String) (a : AgentState F) (s : ShardStateMachine F)
      (shards moved found : Dict (ShardStateMachine F)) (ds : List (Departure F))
      (answers : List (Departure F × Bool))
      → tick_shards py json dt grid shards ≡ some (moved, ds)
      → HasAgent id k a shards
      → lookup id found ≡ some s
      → Ticks id k a
          (was_accepted id k answers && ready id)
          s
          moved
          (finish_shards json ready (record_accepted answers []) found)
  tick-Ticks ready id k a s shards moved found ds answers h v at =
      let out = listed-record_accepted id k answers [] in
      let w =
        finish_shards-AgentIs json ready id k (lookup k s.agents) (record_accepted answers []) found
          (record { shard = s; found = at; agent = refl }) in
      record {
        first = tick_shards-StaysIn id k a shards moved ds h v;
        last =
            subst
              (λ b.
                AgentIs id k (if b && ready id then none else lookup k s.agents)
                  (finish_shards json ready (record_accepted answers []) found))
              out w;
      }
