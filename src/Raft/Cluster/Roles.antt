-- ===== src/Raft/Cluster/Roles.antt =====
-- Which steps make a leader, and what a granted vote says of the voter.
use dssd.Prelude.{
  ℕ, zero, suc, ◌+◌, ◌≤◌, ◌≡◌, ◌⊎◌, String, true, Option, none, some, List, length, insert, arith,
}
use dssd.Raft.State.{Raft, is_leader, majority, last_index, start, propose}
use dssd.Raft.Vote.{RequestVoteArgs, RequestVoteReply, Election, ask, handle_request_vote}
use dssd.Raft.Append.{AppendEntriesArgs, AppendEntriesReply, handle_append_entries}
use dssd.Raft.Replicate.{on_append_reply, acknowledge, back_up, advance_commit_index, advance_loop}
use dssd.Raft.Apply.{run_once}
use dssd.Raft.Apply.Deliver.{applier-frame}
use dssd.Raft.Cluster.{Quiet, restarts, proposes, ticks, follows, hears, applies}
use dssd.Raft.Node.{Step}
use dssd.Raft.Node
use dssd.Raft.Node.Terms.{Later, Step-Later}

-- Whoever leads after the step led the same term before it.
abbrev pub NoNewLeader : Raft → Raft → Type 0
NoNewLeader r s =
    is_leader s.role ≡ true → (is_leader r.role ≡ true) × (s.current_term ≡ r.current_term)

handle_append_entries-NoNewLeader :
    (now : ℕ) (args : AppendEntriesArgs) (r : Raft)
    → NoNewLeader r (handle_append_entries now args r).0
unfolding handle_append_entries
handle_append_entries-NoNewLeader now args r h = ground arith

propose-NoNewLeader : (command : List ℕ) (r : Raft) → NoNewLeader r (propose r command).0
unfolding propose
propose-NoNewLeader command r h = ground arith

run_once-NoNewLeader : (now timeout : ℕ) (r : Raft) → NoNewLeader r (run_once now timeout r).0
unfolding run_once
run_once-NoNewLeader now timeout r h = ground arith

pub handle_request_vote-NoNewLeader :
    (now : ℕ) (args : RequestVoteArgs) (r : Raft) → NoNewLeader r (handle_request_vote now args r).0
unfolding handle_request_vote
handle_request_vote-NoNewLeader now args r h = ground arith

advance_loop-NoNewLeader : (r r' : Raft) (n : ℕ) → advance_loop r n ≡ some r' → NoNewLeader r r'
unfolding advance_loop
advance_loop-NoNewLeader r r' zero e h = ground arith
advance_loop-NoNewLeader r r' (suc n) e h = ground (arith, advance_loop-NoNewLeader r r' n)

acknowledge-NoNewLeader :
    (peer : String) (matched : ℕ) (r r' : Raft)
    → acknowledge peer matched r ≡ some r'
    → NoNewLeader r r'
unfolding acknowledge advance_commit_index
acknowledge-NoNewLeader peer matched r r' e =
    advance_loop-NoNewLeader
      (record r {
        match_index = insert peer matched r.match_index;
        next_index = insert peer (matched + 1) r.next_index;
      })
      r' (last_index r) e

on_append_reply-NoNewLeader :
    (now : ℕ) (peer : String) (args : AppendEntriesArgs) (reply : Option AppendEntriesReply)
    (r r' : Raft)
    → on_append_reply now peer args reply r ≡ some r'
    → NoNewLeader r r'
unfolding on_append_reply back_up
on_append_reply-NoNewLeader now peer args none r r' e h = ground arith
on_append_reply-NoNewLeader now peer args (some reply) r r' e h =
    ground (arith, acknowledge-NoNewLeader peer (args.prev_log_index + length args.entries) r r')

pub Quiet-NoNewLeader : {r s : Raft} → Quiet r s → NoNewLeader r s
Quiet-NoNewLeader {r} (restarts now) h = unfold start in ground arith
Quiet-NoNewLeader {r} (proposes command) h = propose-NoNewLeader command r h
Quiet-NoNewLeader {r} (ticks now timeout no_campaign) h = run_once-NoNewLeader now timeout r h
Quiet-NoNewLeader {r} (follows now args) h = handle_append_entries-NoNewLeader now args r h
Quiet-NoNewLeader {r} {s} (hears now peer args reply e) h =
    on_append_reply-NoNewLeader now peer args reply r s e h
Quiet-NoNewLeader {r} {s} (applies {es = es} e) h = ground (arith, applier-frame r s es e)

pub Quiet-Later : {r s : Raft} → Quiet r s → Later r s
Quiet-Later (restarts now) = Step-Later (Node.restarts now)
Quiet-Later (proposes command) = Step-Later (Node.proposes command)
Quiet-Later (ticks now timeout _) = Step-Later (Node.ticks now timeout)
Quiet-Later (follows now args) = Step-Later (Node.follows now args)
Quiet-Later (hears now peer args reply e) = Step-Later (Node.hears now peer args reply e)
Quiet-Later (applies e) = Step-Later (Node.applies e)

-- A granted vote is for the request's term and candidate, and the voter has recorded it.
pub record Grants (args : RequestVoteArgs) (r s : Raft) : Type 0 where
  pub newer : r.current_term ≤ args.term
  pub term : s.current_term ≡ args.term
  pub vote : s.voted_for ≡ args.candidate_id

pub handle_request_vote-Grants :
    (now : ℕ) (args : RequestVoteArgs) (r : Raft)
    → (handle_request_vote now args r).1.vote_granted ≡ true
    → Grants args r (handle_request_vote now args r).0
unfolding handle_request_vote
handle_request_vote-Grants now args r h = ground arith

-- What a reply does to a candidate: its count grows by one at most, for a granted vote; it leads
-- only if it led before, or with a majority counted in its own term.
pub record Counts (r : Raft) (e : Election) (reply : RequestVoteReply) (out : Raft × Election)
    : Type 0 where
  pub votes : (out.1.votes ≡ e.votes) ⊎ ((out.1.votes ≡ e.votes + 1) × (reply.vote_granted ≡ true))
  pub leads :
      is_leader out.0.role ≡ true
      → ((is_leader r.role ≡ true) × (out.0.current_term ≡ r.current_term))
        ⊎ ((out.0.current_term ≡ e.term) × (majority r ≤ out.1.votes))

pub ask-Counts :
    (now : ℕ) (reply : RequestVoteReply) (r : Raft) (e : Election)
    → Counts r e reply (ask now (some reply) (r, e))
unfolding ask
ask-Counts now reply r e = ground arith
