-- ===== src/Raft/Vote/Grants.antt =====
-- When `handle_request_vote` grants a vote.
use native.Mathlib.Decide.{dec_lt}
use dssd.Prelude.{ℕ, ◌≤◌, ◌<◌, ◌≡◌, ◌↔◌, ◌⊎◌, true, arith, eq_iff}
use dssd.Raft.State.{Raft, LogEntry, last_entry, become_follower}
use dssd.Raft.Vote.{RequestVoteArgs, grants, observe_term, handle_request_vote}

pub observe_term-old :
    (now term : ℕ) (r : Raft) → term ≤ r.current_term → observe_term now term r ≡ r
unfolding observe_term
observe_term-old now term r h = ground arith

observe_term-new :
    (now term : ℕ) (r : Raft)
    → r.current_term < term
    → observe_term now term r ≡ become_follower now term r
unfolding observe_term
observe_term-new now term r h = ground arith

-- The candidate's last entry is of a later term, or of the same and not before ours.
unfoldable pub UpToDate : RequestVoteArgs → LogEntry → Type 0
UpToDate args last =
    (last.term < args.last_log_term)
    ⊎ ((args.last_log_term ≡ last.term) × (last.index ≤ args.last_log_index))

-- The node may vote for the candidate: the term is new to it, or it is the present one and the
-- vote is free or the candidate's already.
pub MayVote : RequestVoteArgs → Raft → Type 0
MayVote args r =
    (r.current_term < args.term)
    ⊎ ((r.current_term ≡ args.term) × ((r.voted_for ≡ "") ⊎ (r.voted_for ≡ args.candidate_id)))

-- The test on a node that has seen the term.
grants_iff :
    (args : RequestVoteArgs) (r : Raft)
    → (grants args r ≡ true) ↔ (
        (args.term ≡ r.current_term)
        × ((r.voted_for ≡ "") ⊎ (r.voted_for ≡ args.candidate_id))
        × UpToDate args (last_entry r))
unfolding grants UpToDate
grants_iff args r = ground (arith, eq_iff r.voted_for "", eq_iff r.voted_for args.candidate_id)

granted-grants :
    (now : ℕ) (args : RequestVoteArgs) (r : Raft)
    → (handle_request_vote now args r).1.vote_granted ≡ grants args (observe_term now args.term r)
unfolding handle_request_vote
granted-grants now args r = ground arith

-- A vote is granted exactly if the term is new to the node, or is its own and its vote is free or
-- the candidate's already, and the candidate's last log entry is of a later term, or of the same
-- term and not before the node's.
pub handle_request_vote_iff :
    (now : ℕ) (args : RequestVoteArgs) (r : Raft)
    → ((handle_request_vote now args r).1.vote_granted ≡ true)
      ↔ (MayVote args r × UpToDate args (last_entry r))
unfolding MayVote
handle_request_vote_iff now args r =
    rw (granted-grants now args r) (elim (dec_lt r.current_term args.term) [
      | yes newer ↦ rw (observe_term-new now args.term r newer) (
          unfold become_follower in
          ground (arith, grants_iff args (become_follower now args.term r)))
      | no old ↦
          rw (observe_term-old now args.term r (omega arith)) (ground (arith, grants_iff args r))
    ])
