-- ===== src/Raft/Append/Branches.antt =====
-- The branches of `handle_append_entries`, one equation each.
use dssd.Prelude.{ℕ, ◌+◌, ◌≤◌, ◌<◌, max, ◌≡◌, true, false, length, arith}
use dssd.Raft.State.{Raft, follower}
use dssd.Raft.Vote.{observe_term}
use dssd.Raft.Log.{has_term}
use dssd.Raft.Append.{
  AppendEntriesArgs, append_loop, accept, follow, follow_commit, handle_append_entries,
}

-- A stale leader changes nothing.
pub handle_append_entries-stale :
    (now : ℕ) (args : AppendEntriesArgs) (f : Raft)
    → args.term < f.current_term
    → handle_append_entries now args f ≡ (f, record { term = f.current_term; success = false })
unfolding handle_append_entries observe_term
handle_append_entries-stale now args f old = ground arith

-- A current leader whose place does not match is followed, and asked to back up.
pub handle_append_entries-mismatch :
    (now : ℕ) (args : AppendEntriesArgs) (f : Raft)
    → f.current_term ≤ args.term
    → has_term f.log args.prev_log_index args.prev_log_term ≡ false
    → handle_append_entries now args f ≡ (
      follow now args (observe_term now args.term f),
      record { term = args.term; success = false },
    )
unfolding handle_append_entries observe_term
handle_append_entries-mismatch now args f newer lacks = ground arith

-- With a message that is not stale and a place that matches, the handler accepts.
pub handle_append_entries-accept :
    (now : ℕ) (args : AppendEntriesArgs) (f : Raft)
    → f.current_term ≤ args.term
    → has_term f.log args.prev_log_index args.prev_log_term ≡ true
    → handle_append_entries now args f ≡ (
      accept args (follow now args (observe_term now args.term f)),
      record { term = args.term; success = true },
    )
unfolding handle_append_entries observe_term
handle_append_entries-accept now args f newer has = ground arith

-- The commit index after the loop, for a message whose commit index lies inside our log.
pub accept-commit :
    (args : AppendEntriesArgs) (r : Raft)
    → args.leader_commit < length (append_loop (args.prev_log_index + 1) args.entries r.log)
    → (accept args r).commit_index ≡ max r.commit_index args.leader_commit
unfolding accept follow_commit
accept-commit args r h = ground arith

pub accept-log :
    (args : AppendEntriesArgs) (r : Raft)
    → (accept args r).log ≡ append_loop (args.prev_log_index + 1) args.entries r.log
unfolding accept follow_commit
accept-log args r = ground arith

pub accept-frame :
    (args : AppendEntriesArgs) (r : Raft)
    → ((accept args r).current_term ≡ r.current_term)
      × ((accept args r).leader_id ≡ r.leader_id)
      × ((accept args r).role ≡ r.role)
unfolding accept follow_commit
accept-frame args r = ground arith

pub follow-frame :
    (now : ℕ) (args : AppendEntriesArgs) (f : Raft)
    → f.current_term ≤ args.term
    → let g = follow now args (observe_term now args.term f) in
      (g.log ≡ f.log)
      × (g.commit_index ≡ f.commit_index)
      × (g.current_term ≡ args.term)
      × (g.leader_id ≡ args.leader_id)
      × (g.role ≡ follower)
unfolding follow observe_term
follow-frame now args f newer = ground arith
