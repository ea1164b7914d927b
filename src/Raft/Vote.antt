-- ===== src/Raft/Vote.antt =====
-- raft.py, lines 153-185 and 209-220: an election, from the candidate's side and the voter's.
pub mod Grants
use dssd.Prelude.{
  ℕ, ◌+◌, String, Bool, true, false, ◌&&◌, ◌||◌, Option, none, some, ltb, leb, ◌==◌, str_eq,
  if◌then◌else◌,
}
use dssd.Raft.State.{
  Raft, candidate, is_candidate, last_entry, majority, become_follower, become_leader,
}

pub record RequestVoteArgs : Type 0 where
  pub group : String
  pub term : ℕ
  pub candidate_id : String
  pub last_log_index : ℕ
  pub last_log_term : ℕ

pub record RequestVoteReply : Type 0 where
  pub term : ℕ
  pub vote_granted : Bool

-- What the closures `ask` of one election share: its term and the votes so far.
pub record Election : Type 0 where
  pub term : ℕ
  pub votes : ℕ

-- The candidate's new state, the request for each peer, and the count, which begins with its own.
unfoldable pub start_election : (now timeout : ℕ) → Raft → Raft × RequestVoteArgs × Election
start_election now timeout r = (r', args, record { term = r'.current_term; votes = 1 })
  where
    r' : Raft
    r' = record r {
      role = candidate;
      current_term = r.current_term + 1;
      voted_for = r.cfg.id;
      leader_id = "";
      last_contact = now;
      election_timeout = timeout;
    }

    args : RequestVoteArgs
    args = record {
      group = r.cfg.group;
      term = r'.current_term;
      candidate_id = r.cfg.id;
      last_log_index = (last_entry r).index;
      last_log_term = (last_entry r).term;
    }

-- `ask`, from the reply on; `none` is an unreachable peer.
unfoldable pub ask : (now : ℕ) → Option RequestVoteReply → Raft × Election → Raft × Election
unfolding become_follower become_leader
ask now none (r, e) = (r, e)
ask now (some reply) (r, e) =
    if ltb r.current_term reply.term
    then (become_follower now reply.term r, e)
    else if is_candidate r.role && (r.current_term == e.term && reply.vote_granted)
    then (if leb (majority r) (e.votes + 1)
        then (become_leader r, record e { votes = e.votes + 1 })
        else (r, record e { votes = e.votes + 1 }))
    else (r, e)

-- `(a, b) >= (c, d)` on pairs
abbrev pub tuple_ge : ℕ → ℕ → ℕ → ℕ → Bool
tuple_ge a b c d = ltb c a || (a == c && leb d b)

-- A newer term makes a follower of this node first.
unfoldable pub observe_term : (now term : ℕ) → Raft → Raft
unfolding become_follower
observe_term now term r = if ltb r.current_term term then become_follower now term r else r

unfoldable pub grants : RequestVoteArgs → Raft → Bool
grants args r =
    args.term == r.current_term
    && ((str_eq r.voted_for "" || str_eq r.voted_for args.candidate_id)
        && tuple_ge args.last_log_term args.last_log_index (last_entry r).term (last_entry r).index)

unfoldable pub handle_request_vote : (now : ℕ) → RequestVoteArgs → Raft → Raft × RequestVoteReply
unfolding observe_term grants
handle_request_vote now args r =
    if grants args r'
    then (
      record r' { voted_for = args.candidate_id; last_contact = now },
      record { term = r'.current_term; vote_granted = true },
    )
    else (r', record { term = r'.current_term; vote_granted = false })
  where
    r' : Raft
    r' = observe_term now args.term r
