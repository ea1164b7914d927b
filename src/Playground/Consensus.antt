-- ===== src/Playground/Consensus.antt =====
-- playground.py, lines 220-300: the cluster of nodes that are each a SWIM node and a Raft node. The
-- Raft nodes stand in the network's table, under the group "".
pub mod Watch
pub mod Report
pub mod Leader
pub mod Write
use Prim.Native.Nat.{Ordering}
use Prim.Native.String.{compare}
use dssd.Prelude.{
  ℕ, String, Bool, true, false, not, ◌&&◌, ◌||◌, Option, none, some, List, [], ◌∷◌, contains, ltb,
  ◌==◌, str_eq, if◌then◌else◌, Dict, lookup, insert,
}
use dssd.Addr.{Decimal}
use dssd.Raft.State.{Raft, is_leader, init, start as start_raft, propose}
use dssd.Raft.State.{Config as RaftConfig}
use dssd.Swim.Agent.{Agent, new_agent, start as start_agent, stop as stop_agent}
use dssd.Swim.Agent.{Config as SwimConfig}
use dssd.Playground.Network.{MemoryNetwork, listen, close, discard}
use dssd.Playground.Cluster.{Cluster, Line, accepted, rejected, crashed, restarted, note, add_down}

pub record Consensus : Type 0 where
  pub cluster : Cluster
  pub ids : List String
  pub swim : Dict Agent
  pub last_roles : Dict String
  pub last_trouble : Dict (List String)
  pub reported_dead : List String

-- `self.raft[nid]`; `none` is the KeyError.
unfoldable pub node_of : (nid : String) → MemoryNetwork → Option Raft
unfolding lookup
node_of nid net = elim (lookup nid net.groups) [ none ↦ none | some nodes ↦ lookup "" nodes ]

unfoldable pub set_node : (nid : String) → Raft → MemoryNetwork → MemoryNetwork
unfolding insert
set_node nid r net = record net { groups = insert nid (("", r) ∷ []) net.groups }

abbrev pub with_net : (MemoryNetwork → MemoryNetwork) → Consensus → Consensus
with_net f c = record c { cluster = record c.cluster { net = f c.cluster.net } }

abbrev pub noted : (now : ℕ) → Line → Consensus → Consensus
noted now line c = record c { cluster = note now line c.cluster }

-- The first loop of `_boot`, for one node.
unfoldable pub boot_node :
    SwimConfig → RaftConfig → (timeout : ℕ) (nid : String) → Consensus → Consensus
unfolding set_node new_agent init insert
boot_node swim_config raft_config timeout nid c =
    with_net (set_node nid (init raft_config timeout))
      (record c { swim = insert nid (new_agent swim_config) c.swim })

-- `SwimNode.start`, over the memory network; the Raft node's start; `none` is a KeyError.
unfoldable pub start_swim : Decimal → (nid : String) → Consensus → Option Consensus
unfolding start_agent listen lookup insert
start_swim py nid c = elim (lookup nid c.swim) [
  | none ↦ none
  | some a ↦
      some
        (with_net (listen nid) (record c { swim = insert nid (start_agent py nid 7946 a) c.swim }))
]

unfoldable pub start_node : (now : ℕ) (nid : String) → Consensus → Option Consensus
unfolding node_of set_node start_raft
start_node now nid c = elim (node_of nid c.cluster.net) [
  | none ↦ none
  | some r ↦ some (with_net (set_node nid (start_raft now r)) c)
]

-- `SwimNode.stop`, and the end of `Raft.stop`, which changes nothing that is kept here.
unfoldable pub stop_swim : (nid : String) → Consensus → Option Consensus
unfolding stop_agent close lookup insert
stop_swim nid c = elim (lookup nid c.swim) [
  | none ↦ none
  | some a ↦ some (with_net (close nid) (record c { swim = insert nid (stop_agent a) c.swim }))
]

-- `_kill` up to its first wait, and whether it goes on; then its end.
unfoldable pub kill_begin : (nid : String) → Consensus → Option (Consensus × Bool)
unfolding add_down stop_swim
kill_begin nid c =
    if contains c.cluster.net.down nid
    then some (c, false)
    else elim (stop_swim nid (record c { cluster = add_down nid c.cluster })) [
      | none ↦ none
      | some c' ↦ some (c', true)
    ]

unfoldable pub kill_end : (now : ℕ) (nid : String) → Consensus → Consensus
unfolding note
kill_end now nid c = noted now (crashed nid) c

-- `_revive`, which has no wait.
unfoldable pub revive : Decimal → (now : ℕ) (nid : String) → Consensus → Option Consensus
unfolding discard start_swim start_node note
revive py now nid c =
    if not (contains c.cluster.net.down nid)
    then some c
    else elim (start_swim py nid (with_net (λ net. record net { down = discard nid net.down }) c)) [
      | none ↦ none
      | some c' ↦ elim (start_node now nid c') [
        | none ↦ none
        | some c'' ↦ some (noted now (restarted nid) c'')
      ]
    ]

-- Python's order of texts, and of pairs of a number and a text.
abbrev pub str_lt : String → String → Bool
str_lt s t = elim (compare s t) [ Ordering.lt ↦ true | _ ↦ false ]

abbrev pub pair_lt : ℕ × String → ℕ × String → Bool
pair_lt (t, n) (u, m) = ltb t u || (t == u && str_lt n m)

-- `max` of a list that begins with this pair: the first of the greatest.
unfoldable pub max_pair : ℕ × String → List (ℕ × String) → ℕ × String
max_pair best [] = best
max_pair best (p ∷ ps) = max_pair (if pair_lt best p then p else best) ps

-- The list in `_leader`: the leaders that are up, with their terms.
unfoldable pub leaders :
    (node_at : String → Option Raft) (down : List String) → List String → Option (List (ℕ × String))
leaders node_at down [] = some []
leaders node_at down (n ∷ ns) =
    let rest = leaders node_at down ns in
    if contains down n then rest else elim (node_at n) [
      | none ↦ none
      | some r ↦ elim rest [
        | none ↦ none
        | some ls ↦ some (if is_leader r.role then (r.current_term, n) ∷ ls else ls)
      ]
    ]

-- `_leader`; the inner `none` is None, the outer one a KeyError.
unfoldable pub leader_now : Consensus → Option (Option String)
unfolding leaders max_pair node_of
leader_now c = elim (leaders (λ n. node_of n c.cluster.net) c.cluster.net.down c.ids) [
  | none ↦ none
  | some [] ↦ some none
  | some (p ∷ ps) ↦ some (some (max_pair p ps).1)
]

-- `write`; `encode` is the text's UTF-8.
unfoldable pub write :
    (encode : String → List ℕ) (now : ℕ) (text : String) → Consensus → Option Consensus
unfolding leader_now node_of set_node propose note
write encode now text c = elim (leader_now c) [
  | none ↦ none
  | some none ↦ some (noted now (rejected text) c)
  | some (some l) ↦
      if str_eq l "" || contains c.cluster.net.down l
      then some (noted now (rejected text) c)
      else elim (node_of l c.cluster.net) [
        | none ↦ none
        | some r ↦
            let (r', index, term, _) = propose r (encode text) in
            some (noted now (accepted l text index term) (with_net (set_node l r') c))
      ]
]
