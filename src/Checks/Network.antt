-- ===== src/Checks/Network.antt =====
-- playground.py: two nodes in a network that is split, and a vote asked for across it.
use dssd.Prelude.{
  ℕ, ◌≡◌, ◌⊎◌, inl, inr, refl, true, some, [], ◌∷◌, lookup, Bool-cases, str_eq, str_eq→eq, subst,
  String, arith,
}
use dssd.Raft.State.{Raft, leader, init}
use dssd.Raft.Vote.{RequestVoteArgs, handle_request_vote}
use dssd.Playground.Network.{MemoryNetwork, new_network}
use dssd.Playground.Cluster.{new_cluster}
use dssd.Playground.Consensus.{Consensus, node_of, write}
use dssd.Playground.Consensus.Leader.{Booted}
use dssd.Playground.Consensus.Write.{Accepted, Rejected, write-Writes}
use dssd.Playground.Network.Feed.{Serves, rpc_serve-Serves}

abbrev voter : Raft
voter = init (record { id = "b"; peers = "a" ∷ []; group = ""; heartbeat_interval = 5 }) 20

abbrev pair : MemoryNetwork
pair = record (new_network 80 true) { groups = ("b", ("", voter) ∷ []) ∷ [] }

abbrev ballot : RequestVoteArgs
ballot = record { group = ""; term = 1; candidate_id = "a"; last_log_index = 0; last_log_term = 0 }

-- `b` went down while the call was under way.
abbrev half_down : MemoryNetwork
half_down = record pair { down = "b" ∷ [] }

rpc_serve-Serves_example :
    Serves (handle_request_vote 3 ballot) 0 "a" "b" "" half_down (("", voter) ∷ []) voter
unfolding new_network lookup
rpc_serve-Serves_example =
    rpc_serve-Serves (handle_request_vote 3 ballot) 0 "a" "b" "" half_down (("", voter) ∷ []) voter
      refl refl

-- Two leaders that are up, of which the second has the greater term.
abbrev leader_of_term : ℕ → Raft
leader_of_term t = record voter { current_term = t; role = leader }

abbrev two_leaders : Consensus
two_leaders = record {
  cluster = record (new_cluster 80 true) {
    net = record (new_network 80 true) {
      groups = ("a", ("", leader_of_term 1) ∷ []) ∷ ("b", ("", leader_of_term 2) ∷ []) ∷ [];
    };
  };
  ids = "a" ∷ "b" ∷ [];
  swim = [];
  last_roles = [];
  last_trouble = [];
  reported_dead = [];
}

two_leaders-Booted :
    Booted two_leaders.ids (λ n. node_of n two_leaders.cluster.net) two_leaders.cluster.net.down
unfolding node_of lookup
two_leaders-Booted = record {
  nodes = λ n h. elim (Bool-cases (str_eq "a" n)) [
    | inl a ↦ subst named (str_eq→eq "a" n a) (leader_of_term 1, refl)
    | inr other ↦ elim (Bool-cases (str_eq "b" n)) [
      | inl b ↦ subst named (str_eq→eq "b" n b) (leader_of_term 2, refl)
      | inr neither ↦ ground (arith, h, other, neither)
    ]
  ];
}
  where
    named : String → Type 0
    named n = (r : Raft) × (node_of n two_leaders.cluster.net ≡ some r)

write-Writes_example :
    (c' : Consensus) × (write (λ text. 104 ∷ []) 7 "h" two_leaders ≡ some c')
    × (Accepted (λ text. 104 ∷ []) "h" two_leaders c' ⊎ Rejected 7 "h" two_leaders c')
write-Writes_example = write-Writes (λ text. 104 ∷ []) 7 "h" two_leaders two_leaders-Booted refl
