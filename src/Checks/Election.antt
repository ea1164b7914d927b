-- ===== src/Checks/Election.antt =====
-- raft.py: an election among two nodes, by evaluation.
use dssd.Prelude.{
  ◌+◌, ◌≡◌, ◌≢◌, refl, inl, inr, String, true, false, List, [], ◌∷◌, contains, length, str_eq,
  eq_iff, Bool-cases, str_eq→eq, subst, ◌↔◌, if◌then◌else◌, arith,
}
use dssd.Raft.State.{Raft, Config, init, is_leader, sentinel, last_entry}
use dssd.Raft.Vote.{RequestVoteArgs, handle_request_vote, start_election, ask}
use dssd.Raft.Vote.Grants.{MayVote, UpToDate, handle_request_vote_iff}
use dssd.Raft.Node
use dssd.Raft.Node.Terms.{Later, Reach-Later}
use dssd.Raft.Cluster.{
  System, campaigns, answers, hears, Reach, here, later, initial, stand, answer, hear,
}
use mathlib.Core.List.Memᴰ
use dssd.Raft.Append.{AppendEntriesArgs}
use dssd.Raft.Replicate.{replicate_to}
use dssd.Raft.Log.{Matching}
use dssd.Raft.Group.{Group, GroupReach, begins, goes_on, moves, sends, receives, receive, new_group}
use dssd.Raft.Group.Safety.{log-Matching}
use dssd.Raft.Cluster.Safety.{IsConfigured, one_leader}

abbrev pub config : String → Config
config i = record {
  id = i;
  peers = if str_eq i "a" then "b" ∷ [] else "a" ∷ [];
  group = "";
  heartbeat_interval = 5;
}

abbrev pub pair : List String
pair = "a" ∷ "b" ∷ []

abbrev fresh : System
fresh = initial config (λ _. 20)

abbrev pub request : RequestVoteArgs
request = record { group = ""; term = 1; candidate_id = "a"; last_log_index = 0; last_log_term = 0 }

abbrev pub standing : System
standing = stand "a" 100 20 fresh

abbrev pub answered : System
answered = answer "b" 101 request standing

abbrev pub elected : System
elected = hear "a" 1 "b" 102 (record { term = 1; vote_granted = true }) answered

-- What `IsConfigured` says of one member.
abbrev Configured : String → Type 0
Configured i =
    (i ≡ i)
    × (i ≢ "")
    × (length (config i).peers + 1 ≡ length pair)
    × ((p : String) → contains (config i).peers p ≡ true → contains pair p ≡ true)

a-Configured : Configured "a"
a-Configured = (refl, ground (arith, eq_iff "a" ""), refl, λ p h. ground (arith, eq_iff "b" p))

b-Configured : Configured "b"
b-Configured = (refl, ground (arith, eq_iff "b" ""), refl, λ p h. ground (arith, eq_iff "a" p))

pub config-IsConfigured : IsConfigured pair config
unfolding IsConfigured
config-IsConfigured i h = elim (Bool-cases (str_eq "a" i)) [
  | inl a ↦ subst Configured (str_eq→eq "a" i a) a-Configured
  | inr other ↦ subst Configured (str_eq→eq "b" i (ground arith)) b-Configured
]

elected_leads : is_leader (elected.node "a").role ≡ true
unfolding hear answer stand initial init start_election ask handle_request_vote
elected_leads = refl

run : Reach pair fresh elected
unfolding hear answer stand initial init start_election ask handle_request_vote
run =
    later
      (later (later here (campaigns "a" 100 20 refl))
        (answers "b" 101 request refl (ground (arith, eq_iff "a" ""))))
      (hears "a" 1 "b" 102 (record { term = 1; vote_granted = true }) refl refl refl (λ _. refl))

one_leader_example : ◌≡◌ {A = String} "a" "a"
one_leader_example =
    one_leader pair config (λ _. 20) elected config-IsConfigured run "a" "a" refl refl elected_leads
      elected_leads refl

-- A node of term 2 that has voted for c and holds an entry of that term.
abbrev voter : Raft
voter = record (init (config "b") 20) {
  current_term = 2;
  voted_for = "c";
  log = sentinel ∷ record { term = 2; index = 1; command = 7 ∷ [] } ∷ [];
}

abbrev late_request : RequestVoteArgs
late_request = record {
  group = "";
  term = 3;
  candidate_id = "a";
  last_log_index = 4;
  last_log_term = 1;
}

-- The candidate of a newer term whose log is behind is refused.
refused : (handle_request_vote 9 late_request voter).1.vote_granted ≡ false
unfolding handle_request_vote init
refused = refl

handle_request_vote_iff_example :
    ((handle_request_vote 9 late_request voter).1.vote_granted ≡ true)
    ↔ (MayVote late_request voter × UpToDate late_request (last_entry voter))
handle_request_vote_iff_example = handle_request_vote_iff 9 late_request voter

Reach-Later_example : Later voter (handle_request_vote 9 late_request voter).0
Reach-Later_example = Reach-Later (Node.later Node.here (Node.votes 9 late_request))

-- What the new leader sends, with its no-op.
abbrev pub no_op : AppendEntriesArgs
no_op = record {
  group = "";
  term = 1;
  leader_id = "a";
  prev_log_index = 0;
  prev_log_term = 0;
  entries = record { term = 1; index = 1; command = [] } ∷ [];
  leader_commit = 0;
}

abbrev replicated : Group
replicated = record { sys = receive "b" 104 no_op elected; sent = no_op ∷ [] }

group_run : GroupReach pair (new_group config (λ _. 20)) replicated
unfolding hear answer stand initial init start_election ask handle_request_vote new_group receive
    replicate_to
group_run =
    goes_on
      (goes_on
        (goes_on
          (goes_on (goes_on begins (moves (campaigns "a" 100 20 refl) refl))
            (moves (answers "b" 101 request refl (ground (arith, eq_iff "a" ""))) refl))
          (moves
            (hears "a" 1 "b" 102 (record { term = 1; vote_granted = true }) refl refl refl
              (λ _. refl))
            refl))
        (sends "a" "b" 1 no_op refl refl))
      (receives "b" 104 no_op refl (Memᴰ.head refl))

log-Matching_example : Matching (replicated.sys.node "a").log (replicated.sys.node "b").log
log-Matching_example =
    log-Matching pair config (λ _. 20) replicated config-IsConfigured group_run "a" "b" refl refl
