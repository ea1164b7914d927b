-- ===== src/Raft/Append.antt =====
-- raft.py, lines 222-246: what a follower does with AppendEntries.
pub mod Branches
pub mod Merge
pub mod Again
pub mod Committed
use dssd.Prelude.{
  ℕ, ◌+◌, ◌-◌, min, String, Bool, true, false, not, List, [], ◌∷◌, ◌++◌, length, take, ltb,
  if◌then◌else◌,
}
use dssd.Raft.State.{Raft, LogEntry, follower, last_index}
use dssd.Raft.Vote.{observe_term}
use dssd.Raft.Log.{has_term}

pub record AppendEntriesArgs : Type 0 where
  pub group : String
  pub term : ℕ
  pub leader_id : String
  pub prev_log_index : ℕ
  pub prev_log_term : ℕ
  pub entries : List LogEntry
  pub leader_commit : ℕ

pub record AppendEntriesReply : Type 0 where
  pub term : ℕ
  pub success : Bool

-- The loop over the new entries: skip those at hand, cut the log at the first that is not.
unfoldable pub append_loop : (index : ℕ) → List LogEntry → List LogEntry → List LogEntry
append_loop index [] log = log
append_loop index (e ∷ es) log =
    let rest = append_loop (index + 1) es log in
    if has_term log index e.term then rest else take index log ++ e ∷ es

-- The new commit index, at most the last index of our own log.
unfoldable pub follow_commit : (leader_commit : ℕ) → Raft → Raft
follow_commit leader_commit r =
    if ltb r.commit_index leader_commit
    then record r { commit_index = min leader_commit (last_index r); apply_signal = true }
    else r

-- The node that has accepted the sender as its leader.
unfoldable pub follow : (now : ℕ) → AppendEntriesArgs → Raft → Raft
follow now args r = record r { role = follower; leader_id = args.leader_id; last_contact = now }

unfoldable pub accept : AppendEntriesArgs → Raft → Raft
unfolding follow_commit append_loop
accept args r =
    follow_commit args.leader_commit
      (record r { log = append_loop (args.prev_log_index + 1) args.entries r.log })

unfoldable pub handle_append_entries :
    (now : ℕ) → AppendEntriesArgs → Raft → Raft × AppendEntriesReply
unfolding observe_term follow accept
handle_append_entries now args r =
    if ltb args.term r'.current_term
    then (r', record { term = r'.current_term; success = false })
    else if not (has_term r'.log args.prev_log_index args.prev_log_term)
    then (follow now args r', record { term = r'.current_term; success = false })
    else (accept args (follow now args r'), record { term = r'.current_term; success = true })
  where
    r' : Raft
    r' = observe_term now args.term r
