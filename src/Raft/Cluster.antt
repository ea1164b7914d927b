-- ===== src/Raft/Cluster.antt =====
-- A Raft group: the nodes of raft.py, a network that may lose, delay and repeat messages, and the
-- replies to vote requests. What a closure `ask` can see is explicit: `votes` is the variable that
-- the closures of one election share, `granted` holds the granted replies that the network may
-- deliver, `counted` says which task has had its one reply.
pub mod Roles
pub mod Invariant
pub mod Ballots
pub mod Answer
pub mod Stand
pub mod Hear
pub mod Steps
pub mod Safety
use dssd.Prelude.{
  ℕ, ◌+◌, ◌≡◌, ◌≢◌, String, Bool, true, false, ◌&&◌, ◌||◌, some, List, ◌==◌, str_eq, contains,
  Option, if◌then◌else◌,
}
use dssd.Raft.State.{Raft, start, propose, init, Config}
use dssd.Raft.Vote.{
  RequestVoteArgs, RequestVoteReply, Election, start_election, ask, handle_request_vote,
}
use dssd.Raft.Append.{AppendEntriesArgs, AppendEntriesReply, handle_append_entries}
use dssd.Raft.Replicate.{on_append_reply}
use dssd.Raft.Apply.{Action, campaign, run_once, applier}
use dssd.Raft.State.{LogEntry}

-- By candidate, term and voter.
abbrev pub Ballots : Type 0
Ballots = String → ℕ → String → Bool

-- `b`, with the ballot of `v` for `c` in term `t`.
abbrev pub mark : Ballots → String → ℕ → String → Ballots
mark b c t v c' t' v' = (str_eq c c' && (t == t' && str_eq v v')) || b c' t' v'

pub record System : Type 0 where
  pub node : String → Raft
  pub votes : String → ℕ → ℕ
  pub granted : Ballots
  pub counted : Ballots

abbrev pub put : (String → Raft) → String → Raft → String → Raft
put f i r j = if str_eq i j then r else f j

abbrev pub put_votes : (String → ℕ → ℕ) → String → ℕ → ℕ → String → ℕ → ℕ
put_votes f c t n c' t' = if str_eq c c' && t == t' then n else f c' t'

-- A node's steps that have no part in an election. A round of the timer is one
-- unless it starts an election.
pub data Quiet (r : Raft) : Raft → Type 0 where
  restarts : (now : ℕ) → Quiet r (start now r)
  proposes : (command : List ℕ) → Quiet r (propose r command).0
  ticks :
      (now timeout : ℕ)
      → ((args : RequestVoteArgs) (e : Election) → (run_once now timeout r).1 ≢ campaign args e)
      → Quiet r (run_once now timeout r).0
  follows : (now : ℕ) (args : AppendEntriesArgs) → Quiet r (handle_append_entries now args r).0
  hears :
      (now : ℕ) (peer : String) (args : AppendEntriesArgs) (reply : Option AppendEntriesReply)
      {r' : Raft}
      → on_append_reply now peer args reply r ≡ some r'
      → Quiet r r'
  applies : {r' : Raft} {es : List LogEntry} → applier r ≡ some (r', es) → Quiet r r'

-- Node `i` starts an election, and votes for itself. (`Step` lets it do so at any time.)
unfoldable pub stand : (i : String) (now timeout : ℕ) → System → System
stand i now timeout s = record {
  node = put s.node i r';
  votes = put_votes s.votes i r'.current_term e.votes;
  granted = mark s.granted i r'.current_term i;
  counted = mark s.counted i r'.current_term i;
}
  where
    r' : Raft
    r' = (start_election now timeout (s.node i)).0

    e : Election
    e = (start_election now timeout (s.node i)).2

-- Node `v` answers a request.
unfoldable pub answer : (v : String) (now : ℕ) → RequestVoteArgs → System → System
answer v now args s = record s {
  node = put s.node v out.0;
  granted = if out.1.vote_granted then mark s.granted args.candidate_id args.term v else s.granted;
}
  where
    out : Raft × RequestVoteReply
    out = handle_request_vote now args (s.node v)

-- The task of candidate `c`, term `t` and peer `p` gets its reply.
unfoldable pub hear :
    (c : String) (t : ℕ) (p : String) (now : ℕ) → RequestVoteReply → System → System
hear c t p now reply s = record s {
  node = put s.node c out.0;
  votes = put_votes s.votes c t out.1.votes;
  counted = mark s.counted c t p;
}
  where
    out : Raft × Election
    out = ask now (some reply) (s.node c, record { term = t; votes = s.votes c t })

pub data Step (members : List String) (s : System) : System → Type 0 where
  campaigns :
      (i : String) (now timeout : ℕ)
      → contains members i ≡ true
      → Step members s (stand i now timeout s)
  answers :
      (v : String) (now : ℕ) (args : RequestVoteArgs)
      → contains members v ≡ true
      → args.candidate_id ≢ ""
      → Step members s (answer v now args s)
  hears :
      (c : String) (t : ℕ) (p : String) (now : ℕ) (reply : RequestVoteReply)
      → contains members c ≡ true
      → contains (s.node c).cfg.peers p ≡ true
      → s.counted c t p ≡ false
      → (reply.vote_granted ≡ true → s.granted c t p ≡ true)
      → Step members s (hear c t p now reply s)
  quiet :
      (i : String) {r' : Raft}
      → contains members i ≡ true
      → Quiet (s.node i) r'
      → Step members s (record s { node = put s.node i r' })

-- Every member as it is made, `self` not among its peers, and no message sent.
unfoldable pub initial : (configs : String → Config) (timeouts : String → ℕ) → System
initial configs timeouts = record {
  node = λ i. init (configs i) (timeouts i);
  votes = λ _ _. 0;
  granted = λ _ _ _. false;
  counted = λ _ _ _. false;
}

pub data Reach (members : List String) (s : System) : System → Type 0 where
  here : Reach members s s
  later : {t u : System} → Reach members s t → Step members t u → Reach members s u
