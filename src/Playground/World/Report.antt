-- ===== src/Playground/World/Report.antt =====
-- playground.py, lines 470-507: the owners of the shards in the feed, and the report. The set of
-- expected agents is a list without doubles, that of the agents seen a list.
use dssd.Prelude.{
  ℕ, ◌+◌, String, not, Option, none, some, List, [], ◌∷◌, ◌++◌, map, length, count, contains, ltb,
  str_eq, if◌then◌else◌, Dict, lookup, insert, values,
}
use dssd.Raft.State.{is_leader}
use dssd.Shard.World.{AgentState}
use dssd.Shard.State.{ShardStateMachine}
use dssd.Playground.Network.{get_or_zero}
use dssd.Playground.Cluster.{owns, unowned, note, Drained, drain}
use dssd.Playground.World.{World, shard_at, leader_of, note_world}

-- `leader or ""`
abbrev pub owner : Option (ℕ × String) → String
owner none = ""
owner (some p) = p.1

abbrev pub text_or_empty : Option String → String
text_or_empty none = ""
text_or_empty (some s) = s

-- What the report says of a shard.
pub record ShardReport (F : Type 0) : Type 0 where
  pub id : String
  pub leader : Option (ℕ × String)
  pub agents : List (AgentState F)

pub record Stats : Type 0 where
  pub total : ℕ
  pub lost : ℕ
  pub duplicated : ℕ

pub record WorldReport (F : Type 0) : Type 0 where
  pub drained : Drained
  pub leads : Dict (List String)
  pub shards : List (ShardReport F)
  pub stats : Stats

module _ {F : Type 0} where
  -- `_watch`, for one shard, given its leader.
  unfoldable pub watch_owner : (now : ℕ) (sid : String) → Option (ℕ × String) → World F → World F
  unfolding note lookup insert
  watch_owner now sid l w =
      if str_eq (owner l) (text_or_empty (lookup sid w.last_leaders))
      then w
      else record (note_world now (elim l [ none ↦ unowned sid | some p ↦ owns p.1 sid p.0 ]) w) {
        last_leaders = insert sid (owner l) w.last_leaders;
      }

  unfoldable pub watch_shards : (now : ℕ) → List String → World F → Option (World F)
  unfolding watch_owner leader_of
  watch_shards now [] w = some w
  watch_shards now (sid ∷ sids) w = elim (leader_of sid w) [
    | none ↦ none
    | some l ↦ watch_shards now sids (watch_owner now sid l w)
  ]

  -- The freshest of the replicas that are up, over the one found so far.
  unfoldable pub freshest :
      Option (ShardStateMachine F)
      → (sid : String) → List String
      → World F
      → Option (Option (ShardStateMachine F))
  unfolding shard_at
  freshest best sid [] w = some best
  freshest best sid (n ∷ ns) w =
      if contains w.cluster.net.down n then freshest best sid ns w else elim (shard_at n sid w) [
        | none ↦ none
        | some s ↦ elim best [
          | none ↦ freshest (some s) sid ns w
          | some b ↦
              if ltb b.raft.last_applied s.raft.last_applied
              then freshest (some s) sid ns w
              else freshest (some b) sid ns w
        ]
      ]

  -- `source`: the replica that is shown.
  unfoldable pub source :
      (sid : String) → Option (ℕ × String) → World F → Option (Option (ShardStateMachine F))
  unfolding freshest shard_at
  source sid (some p) w = elim (shard_at p.1 sid w) [ none ↦ none | some s ↦ some (some s) ]
  source sid none w = freshest none sid w.ids w

  abbrev pub agents_of : Option (ShardStateMachine F) → List (AgentState F)
  agents_of none = []
  agents_of (some s) = values s.agents

  unfoldable pub report_shard : (sid : String) → World F → Option (ShardReport F)
  unfolding leader_of source
  report_shard sid w = elim (leader_of sid w) [
    | none ↦ none
    | some l ↦ elim (source sid l w) [
      | none ↦ none
      | some s ↦ some (record { id = sid; leader = l; agents = agents_of s })
    ]
  ]

  unfoldable pub report_shards : List String → World F → Option (List (ShardReport F))
  unfolding report_shard
  report_shards [] w = some []
  report_shards (sid ∷ sids) w =
      let rest = report_shards sids w in
      elim (report_shard sid w) [
        | none ↦ none
        | some r ↦ elim rest [ none ↦ none | some rs ↦ some (r ∷ rs) ]
      ]

  -- The ids of the agents of a replica.
  abbrev pub agent_ids : ShardStateMachine F → List String
  agent_ids s = map (λ (a : AgentState F). a.id) (values s.agents)

  -- `seen`: the agents of one shard on all nodes, and those of all shards.
  unfoldable pub seen_in : (sid : String) → List String → World F → Option (List String)
  unfolding shard_at
  seen_in sid [] w = some []
  seen_in sid (n ∷ ns) w =
      let rest = seen_in sid ns w in
      elim (shard_at n sid w) [
        | none ↦ none
        | some s ↦ elim rest [ none ↦ none | some seen ↦ some (agent_ids s ++ seen) ]
      ]

  unfoldable pub seen_all : List String → World F → Option (List String)
  unfolding seen_in
  seen_all [] w = some []
  seen_all (sid ∷ sids) w =
      let rest = seen_all sids w in
      elim (seen_in sid w.ids w) [
        | none ↦ none
        | some found ↦ elim rest [ none ↦ none | some seen ↦ some (found ++ seen) ]
      ]

  -- `held`, over what was counted so far.
  unfoldable pub hold : List (AgentState F) → Dict ℕ → Dict ℕ
  unfolding lookup insert
  hold [] held = held
  hold (a ∷ rest) held = hold rest (insert a.id (get_or_zero (lookup a.id held) + 1) held)

  unfoldable pub hold_all : List (ShardReport F) → Dict ℕ → Dict ℕ
  unfolding hold
  hold_all [] held = held
  hold_all (r ∷ rs) held = hold_all rs (hold r.agents held)

  unfoldable pub stats : (seen : List String) → List (ShardReport F) → World F → Stats
  unfolding hold_all
  stats seen reports w = record {
    total = length w.expected;
    lost = count (λ id. not (contains seen id)) w.expected;
    duplicated = count (λ c. ltb 1 c) (values (hold_all reports []));
  }

  -- The shards that a node leads; none if it is down.
  unfoldable pub leads_of : (n : String) → List String → World F → Option (List String)
  unfolding shard_at
  leads_of n [] w = some []
  leads_of n (sid ∷ sids) w =
      let rest = leads_of n sids w in
      if contains w.cluster.net.down n then some [] else elim (shard_at n sid w) [
        | none ↦ none
        | some s ↦ elim rest [
          | none ↦ none
          | some found ↦ some (if is_leader s.raft.role then sid ∷ found else found)
        ]
      ]

  unfoldable pub leads_all : List String → World F → Option (Dict (List String))
  unfolding leads_of
  leads_all [] w = some []
  leads_all (n ∷ ns) w =
      let rest = leads_all ns w in
      elim (leads_of n w.shard_ids w) [
        | none ↦ none
        | some found ↦ elim rest [ none ↦ none | some all ↦ some ((n, found) ∷ all) ]
      ]

  -- `snapshot`
  unfoldable pub report : (now : ℕ) → World F → Option (World F × WorldReport F)
  unfolding report_shards seen_all stats leads_all drain
  report now w = elim (report_shards w.shard_ids w) [
    | none ↦ none
    | some reports ↦ elim (seen_all w.shard_ids w) [
      | none ↦ none
      | some seen ↦ elim (leads_all w.ids w) [
        | none ↦ none
        | some leads ↦
            let (cluster', drained) = drain now w.cluster in
            some (
              record w { cluster = cluster' },
              record {
                drained = drained;
                leads = leads;
                shards = reports;
                stats = stats seen reports w;
              },
            )
      ]
    ]
  ]
