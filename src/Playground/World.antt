-- ===== src/Playground/World.antt =====
-- playground.py, lines 353-468: the cluster of region servers. The Raft nodes of the shards stand in
-- the shards' table alone, of which the network's is a view.
pub mod Spawn
pub mod Report
pub mod Total
pub mod Lost
use dssd.Prelude.{
  ℕ, ◌+◌, String, Bool, true, false, not, Option, none, some, List, [], ◌∷◌, ◌++◌, count, contains,
  ltb, if◌then◌else◌, Dict, lookup, insert, values,
}
use dssd.Raft.State.{Raft, is_leader, start as start_raft}
use dssd.Shard.State.{Json, Waits, ShardStateMachine}
use dssd.Shard.Handoff.{HandOffRequest, HandOffResponse, hand_off}
use dssd.Playground.Network.{delivers, tap, handoff, discard}
use dssd.Playground.Cluster.{Line, Cluster, crashed, restarted, note, add_down}
use dssd.Playground.Consensus.{leaders, max_pair}

pub record World (F : Type 0) : Type 0 where
  pub cluster : Cluster
  pub ids : List String
  pub shard_ids : List String
  pub shards : Dict (Dict (ShardStateMachine F))
  pub region_tasks : List String  -- whose region server runs
  pub expected : List String
  pub last_leaders : Dict String

module _ {F : Type 0} where
  -- `self.shards[n][sid]`; `none` is a KeyError.
  unfoldable pub shard_at : (n sid : String) → World F → Option (ShardStateMachine F)
  unfolding lookup
  shard_at n sid w = elim (lookup n w.shards) [ none ↦ none | some shards ↦ lookup sid shards ]

  unfoldable pub raft_at : (sid n : String) → World F → Option Raft
  unfolding shard_at
  raft_at sid n w = elim (shard_at n sid w) [ none ↦ none | some s ↦ some s.raft ]

  abbrev pub note_world : (now : ℕ) → Line → World F → World F
  note_world now line w = record w { cluster = note now line w.cluster }

  -- `_leader_of`; the inner `none` is (None, 0).
  unfoldable pub leader_of : (sid : String) → World F → Option (Option (ℕ × String))
  unfolding leaders max_pair raft_at
  leader_of sid w = elim (leaders (λ n. raft_at sid n w) w.cluster.net.down w.ids) [
    | none ↦ none
    | some [] ↦ some none
    | some (p ∷ ps) ↦ some (some (max_pair p ps))
  ]

  -- `_kill` up to its first wait, and its end. A shard's `stop` changes nothing that is kept here.
  unfoldable pub crash_begin : (nid : String) → World F → World F × Bool
  unfolding add_down discard
  crash_begin nid w = if contains w.cluster.net.down nid then (w, false) else (
    record w { cluster = add_down nid w.cluster; region_tasks = discard nid w.region_tasks },
    true,
  )

  unfoldable pub crash_end : (now : ℕ) (nid : String) → World F → World F
  unfolding note
  crash_end now nid w = note_world now (crashed nid) w

  unfoldable pub start_shards : (now : ℕ) → Dict (ShardStateMachine F) → Dict (ShardStateMachine F)
  unfolding start_raft
  start_shards now [] = []
  start_shards now ((sid, s) ∷ shards) =
      (sid, record s { raft = start_raft now s.raft }) ∷ start_shards now shards

  -- `_revive`, which has no wait; `none` is a KeyError.
  unfoldable pub restart : (now : ℕ) (nid : String) → World F → Option (World F)
  unfolding discard start_shards note lookup insert
  restart now nid w =
      if not (contains w.cluster.net.down nid) then some w else elim (lookup nid w.shards) [
        | none ↦ none
        | some shards ↦ some (
            note_world now (restarted nid) (record w {
              cluster = record w.cluster {
                net = record w.cluster.net { down = discard nid w.cluster.net.down };
              };
              shards = insert nid (start_shards now shards) w.shards;
              region_tasks = w.region_tasks ++ nid ∷ [];
            }))
      ]

  -- How many shards a node leads, and the key of `kill_busiest`, 99 higher than in the source.
  abbrev pub led : Dict (ShardStateMachine F) → ℕ
  led shards = count (λ (s : ShardStateMachine F). is_leader s.raft.role) (values shards)

  unfoldable pub busy : (n : String) → World F → Option ℕ
  unfolding lookup
  busy n w = elim (lookup n w.shards) [
    | none ↦ none
    | some shards ↦ some (if contains w.cluster.net.down n then led shards else 99 + led shards)
  ]

  unfoldable pub busiest_of : (best : String) (most : ℕ) → List String → World F → Option String
  unfolding busy
  busiest_of best most [] w = some best
  busiest_of best most (n ∷ ns) w = elim (busy n w) [
    | none ↦ none
    | some k ↦ if ltb most k then busiest_of n k ns w else busiest_of best most ns w
  ]

  -- Whom `kill_busiest` kills; `none` is an exception.
  unfoldable pub busiest : World F → Option String
  unfolding busiest_of
  busiest w = elim w.ids [
    | [] ↦ none
    | n ∷ ns ↦ elim (busy n w) [ none ↦ none | some k ↦ busiest_of n k ns w ]
  ]

  -- `handoff` up to its first wait; false is the AioRpcError of an unreachable peer.
  unfoldable pub handoff_send : (draw : ℕ) (me dest shard_id : String) → World F → World F × Bool
  unfolding delivers tap
  handoff_send draw me dest shard_id w =
      let ok = delivers draw me dest w.cluster.net in
      (
        record w {
          cluster = record w.cluster {
            net = tap handoff "handoff" me dest ok shard_id w.cluster.net;
          };
        },
        ok,
      )

  -- Its rest, with what the waits of `add_agent` see of the shard, while the other shards rest; the
  -- inner `none` is a call that still waits then, the outer one a KeyError.
  unfoldable pub handoff_serve :
      Json F
      → Waits F
      → (dest : String) → HandOffRequest F
      → World F
      → Option (Option (World F × HandOffResponse))
  unfolding hand_off lookup insert
  handoff_serve json waits dest request w = elim (lookup dest w.shards) [
    | none ↦ none
    | some shards ↦ elim (hand_off json waits request (lookup request.shard_id shards)) [
      | none ↦ some none
      | some (none, response) ↦ some (some (w, response))
      | some (some s, response) ↦ some (
          some (
            record w { shards = insert dest (insert request.shard_id s shards) w.shards },
            response,
          ))
    ]
  ]
