-- ===== src/Playground/Consensus/Report.antt =====
-- playground.py, lines 334-350: the cluster's report.
use dssd.Prelude.{
  ℕ, String, Bool, not, Option, none, some, List, [], ◌∷◌, drop, length, ◌-◌, contains, Dict,
}
use dssd.Raft.State.{LogEntry, entries, last_index}
use dssd.Swim.Member.{State}
use dssd.Playground.Cluster.{Drained, drain}
use dssd.Playground.Consensus.{Consensus, node_of, leader_now}
use dssd.Playground.Consensus.Watch.{role_value, views}

-- `snapshot`, whose log is the last 14 entries.
pub record NodeReport : Type 0 where
  pub id : String
  pub up : Bool
  pub role : String
  pub term : ℕ
  pub leader : String
  pub commit : ℕ
  pub last : ℕ
  pub log : List LogEntry
  pub swim : Dict State

pub record Report : Type 0 where
  pub drained : Drained
  pub nodes : List NodeReport
  pub leader : Option String

unfoldable pub report_node : (nid : String) → Consensus → Option NodeReport
unfolding node_of views
report_node nid c = elim (node_of nid c.cluster.net) [
  | none ↦ none
  | some r ↦ elim (views nid c) [
    | none ↦ none
    | some seen ↦ some (record {
      id = nid;
      up = not (contains c.cluster.net.down nid);
      role = role_value r.role;
      term = r.current_term;
      leader = r.leader_id;
      commit = r.commit_index;
      last = last_index r;
      log = drop (length (entries r) - 14) (entries r);
      swim = seen;
    })
  ]
]

unfoldable pub report_nodes : List String → Consensus → Option (List NodeReport)
unfolding report_node
report_nodes [] c = some []
report_nodes (n ∷ ns) c =
    let rest = report_nodes ns c in
    elim (report_node n c) [
      | none ↦ none
      | some p ↦ elim rest [ none ↦ none | some ps ↦ some (p ∷ ps) ]
    ]

unfoldable pub consensus_snapshot : (now : ℕ) → Consensus → Option (Consensus × Report)
unfolding report_nodes drain leader_now
consensus_snapshot now c = elim (report_nodes c.ids c) [
  | none ↦ none
  | some nodes ↦ elim (leader_now c) [
    | none ↦ none
    | some l ↦
        let (cluster', drained) = drain now c.cluster in
        some
          (record c { cluster = cluster' }, record { drained = drained; nodes = nodes; leader = l })
  ]
]
