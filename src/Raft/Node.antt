-- ===== src/Raft/Node.antt =====
-- One Raft node as a step relation: every way in which raft.py changes a node's state, with the
-- messages, the replies and the clock left open.
pub mod Terms
use dssd.Prelude.{ℕ, ◌≡◌, String, Option, some, List}
use dssd.Raft.State.{Raft, LogEntry, start, propose}
use dssd.Raft.Vote.{
  RequestVoteArgs, RequestVoteReply, Election, ask, handle_request_vote, start_election,
}
use dssd.Raft.Append.{AppendEntriesArgs, AppendEntriesReply, handle_append_entries}
use dssd.Raft.Replicate.{on_append_reply}
use dssd.Raft.Apply.{Action, run_once, applier}

pub data Step (r : Raft) : Raft → Type 0 where
  restarts : (now : ℕ) → Step r (start now r)
  proposes : (command : List ℕ) → Step r (propose r command).0
  ticks : (now timeout : ℕ) → Step r (run_once now timeout r).0
  counts :
      (now : ℕ) (reply : Option RequestVoteReply) (e : Election) → Step r (ask now reply (r, e)).0
  votes : (now : ℕ) (args : RequestVoteArgs) → Step r (handle_request_vote now args r).0
  follows : (now : ℕ) (args : AppendEntriesArgs) → Step r (handle_append_entries now args r).0
  hears :
      (now : ℕ) (peer : String) (args : AppendEntriesArgs) (reply : Option AppendEntriesReply)
      {r' : Raft}
      → on_append_reply now peer args reply r ≡ some r'
      → Step r r'
  applies : {r' : Raft} {es : List LogEntry} → applier r ≡ some (r', es) → Step r r'

pub data Reach (r : Raft) : Raft → Type 0 where
  here : Reach r r
  later : {s t : Raft} → Reach r s → Step s t → Reach r t
