-- ===== src/Shard/Region/Keep.antt =====
-- sharding/region_server.py: a tick loses no agent.
use dssd.Prelude.{
  ◌≡◌, refl, ap, ◌∙◌, inl, inr, String, Bool, true, false, ◌&&◌, ◌||◌, Option, none, some, List, [],
  ◌∷◌, ◌++◌, Dict, lookup, insert, remove, contains, str_eq, str_eq→eq, if◌then◌else◌, arith,
  eq_iff, Bool-cases, subst, Option-cases, lookup-insert, lookup-remove,
}
use dssd.Shard.World.{AgentState}
use dssd.Shard.State.{Json, ShardStateMachine, propose_tick}
use dssd.Shard.Region.{
  Departure, move_all, record_accepted, remove_all, finish_shard, finish_shards,
}

-- Agent `k` is among those to remove from shard `id`.
abbrev pub listed : (id k : String) → Dict (List String) → Bool
listed id k [] = false
listed id k ((j, ids) ∷ d) = (str_eq j id && contains ids k) || listed id k d

contains-append :
    (xs : List String) (x k : String) → contains (xs ++ x ∷ []) k ≡ (contains xs k || str_eq x k)
contains-append [] x k = ground arith
contains-append (y ∷ xs) x k = ground (arith, contains-append xs x k)

listed-insert_new :
    (id k s x : String) (d : Dict (List String))
    → lookup s d ≡ none
    → listed id k (insert s (x ∷ []) d) ≡ (listed id k d || (str_eq s id && str_eq x k))
unfolding lookup insert
listed-insert_new id k s x [] h = ground arith
listed-insert_new id k s x ((j, ids) ∷ d) h = ground (arith, listed-insert_new id k s x d)

chosen {ℓ} :
    {A : Type ℓ} (b : Bool) (x y : A) (o : Option A)
    → b ≡ true
    → (if b then some x else o) ≡ some y
    → x ≡ y
chosen true x y o e h = cc
chosen false x y o e h = ground arith

listed-insert_old :
    (id k s x : String) (d : Dict (List String)) (ids : List String)
    → lookup s d ≡ some ids
    → listed id k (insert s (ids ++ x ∷ []) d) ≡ (listed id k d || (str_eq s id && str_eq x k))
unfolding lookup insert
listed-insert_old id k s x [] ids h = ground arith
listed-insert_old id k s x ((j, js) ∷ d) ids h = elim (Bool-cases (str_eq j s)) [
  | inl here ↦
      let same = chosen (str_eq j s) js ids (lookup s d) here h in
      rw here (ground (arith, eq_iff j s, contains-append ids x k, ap (λ l. contains l k) same))
  | inr other ↦ ground (arith, other, listed-insert_old id k s x d ids)
]

module _ {F : Type 0} where
  pub lookup-move_all :
      (f : AgentState F → AgentState F) (k : String) (d : Dict (AgentState F)) (a : AgentState F)
      → lookup k d ≡ some a
      → lookup k (move_all f d) ≡ some (f a)
  unfolding lookup move_all
  lookup-move_all f k [] a h = ground arith
  lookup-move_all f k ((j, b) ∷ d) a h = ground (arith, lookup-move_all f k d a)

  lookup-remove_all :
      (k : String) (ids : List String) (d : Dict (AgentState F))
      → lookup k (remove_all ids d) ≡ (if contains ids k then none else lookup k d)
  unfolding remove_all
  lookup-remove_all k [] d = refl
  lookup-remove_all k (id ∷ ids) d =
      ground (arith, lookup-remove_all k ids (remove id d), lookup-remove id k d)

  -- One of these departures is of agent `k` from shard `id`, and was accepted.
  abbrev pub was_accepted : (id k : String) → List (Departure F × Bool) → Bool
  was_accepted id k [] = false
  was_accepted id k ((d, accepted) ∷ answers) =
      (accepted && (str_eq d.shard id && str_eq d.agent.id k)) || was_accepted id k answers

  pub listed-record_accepted :
      (id k : String) (answers : List (Departure F × Bool)) (d : Dict (List String))
      → listed id k (record_accepted answers d) ≡ (listed id k d || was_accepted id k answers)
  unfolding record_accepted
  listed-record_accepted id k [] d = ground arith
  listed-record_accepted id k ((x, false) ∷ answers) d = listed-record_accepted id k answers d
  listed-record_accepted id k ((x, true) ∷ answers) d = elim (Option-cases (lookup x.shard d)) [
    | inl e ↦ rw e (
        ground (
          arith,
          listed-insert_new id k x.shard x.agent.id d e,
          listed-record_accepted id k answers (insert x.shard (x.agent.id ∷ []) d),
        ))
    | inr (ids, e) ↦ rw e (
        ground (
          arith,
          listed-insert_old id k x.shard x.agent.id d ids e,
          listed-record_accepted id k answers (insert x.shard (ids ++ x.agent.id ∷ []) d),
        ))
  ]

  -- This shard has this agent.
  pub record HasAgent (id k : String) (a : AgentState F) (shards : Dict (ShardStateMachine F))
      : Type 0 where
    pub shard : ShardStateMachine F
    pub found : lookup id shards ≡ some shard
    pub agent : lookup k shard.agents ≡ some a

  -- This shard is there, and `o` is what it has of agent `k`.
  pub record AgentIs (id k : String) (o : Option (AgentState F))
      (shards : Dict (ShardStateMachine F)) : Type 0 where
    pub shard : ShardStateMachine F
    pub found : lookup id shards ≡ some shard
    pub agent : lookup k shard.agents ≡ o

  module _ (json : Json F) (ready : String → Bool) where
    lookup-finish_shard :
        (ids : List String) (b : Bool) (k : String) (s : ShardStateMachine F)
        → lookup k (finish_shard json ids b s).agents
          ≡ (if contains ids k && b then none else lookup k s.agents)
    unfolding finish_shard propose_tick
    lookup-finish_shard ids true k s = ground (arith, lookup-remove_all k ids s.agents)
    lookup-finish_shard ids false k s = ground arith

    both :
        (here later b : Bool) (o : Option (AgentState F))
        → (if later && b then none else (if here && b then none else o))
          ≡ (if (true && here || later) && b then none else o)
    both here later b o = ground arith

    -- The agent is gone if it is listed and its shard has caught up, and else is as it was.
    pub finish_shards-AgentIs :
        (id k : String) (o : Option (AgentState F)) (handed_off : Dict (List String))
        (shards : Dict (ShardStateMachine F))
        → AgentIs id k o shards
        → AgentIs id k
            (if listed id k handed_off && ready id then none else o)
            (finish_shards json ready handed_off shards)
    unfolding finish_shards
    finish_shards-AgentIs id k o [] shards v = v
    finish_shards-AgentIs id k o ((j, ids) ∷ rest) shards v = elim (Bool-cases (str_eq j id)) [
      | inl here ↦
          let at = ap (λ q. lookup q shards) (str_eq→eq j id here) ∙ v.found in
          let same = ap ready (str_eq→eq j id here) in
          let now = if contains ids k && ready id then none else o in
          rw (at, here)
            (subst
              (λ q. AgentIs id k q (
                finish_shards json ready rest
                  (insert j (finish_shard json ids (ready j) v.shard) shards)))
              (both (contains ids k) (listed id k rest) (ready id) o)
              (finish_shards-AgentIs id k now rest
                (insert j (finish_shard json ids (ready j) v.shard) shards)
                (record {
                  shard = finish_shard json ids (ready j) v.shard;
                  found = lookup-insert j id _ shards ∙ rw here refl;
                  agent = lookup-finish_shard ids (ready j) k v.shard ∙ rw (same, v.agent) refl;
                })))
      | inr other ↦ rw other (elim (Option-cases (lookup j shards)) [
        | inl e ↦ rw e (finish_shards-AgentIs id k o rest shards v)
        | inr (t, e) ↦ rw e (
            finish_shards-AgentIs id k o rest (insert j (finish_shard json ids (ready j) t) shards)
              (record {
                shard = v.shard;
                found = lookup-insert j id _ shards ∙ rw other v.found;
                agent = v.agent;
              }))
      ])
    ]
