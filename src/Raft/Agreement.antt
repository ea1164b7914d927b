-- ===== src/Raft/Agreement.antt =====
-- The two sides of replication together: `_replicate_to` of a leader, `handle_append_entries` of a
-- follower.
use native.Mathlib.Numerals.{add-one}
use dssd.Prelude.{
  ℕ, suc, ◌+◌, ◌≤◌, ◌<◌, max, ◌≡◌, String, refl, ap, ◌∙◌, true, false, List, length, arith,
}
use dssd.Raft.State.{Raft, LogEntry, follower, is_leader}
use dssd.Raft.Vote.{observe_term}
use dssd.Raft.Log.{has_term, Matching}
use dssd.Raft.Append.{AppendEntriesArgs, append_loop, accept, follow, handle_append_entries}
use dssd.Raft.Append.Branches.{
  handle_append_entries-accept, accept-commit, accept-log, accept-frame, follow-frame,
}
use dssd.Raft.Append.Merge.{Merged, merge, Merged-length}
use dssd.Raft.Replicate.{request, replicate_to}
use dssd.Raft.Replicate.Request.{Sent, replicate_to-Sent}

-- The follower's log after the loop over the leader's entries.
Sent-Merged :
    (l : Raft) (args : AppendEntriesArgs) (log : List LogEntry)
    → Sent l args
    → Matching log l.log
    → has_term log args.prev_log_index args.prev_log_term ≡ true
    → Merged log l.log (append_loop (args.prev_log_index + 1) args.entries log)
Sent-Merged l args log s m has = rw add-one (
    merge log l.log args.entries (suc args.prev_log_index) m (omega (arith, s.inside))
      (m.agree args.prev_log_index args.prev_log_term has s.prev) s.rest)

-- What a follower looks like after it has accepted the leader's request.
pub record Agrees (l f f' : Raft) : Type 0 where
  pub log : Merged f.log l.log f'.log
  pub commit : f'.commit_index ≡ max f.commit_index l.commit_index
  pub term : f'.current_term ≡ l.current_term
  pub hint : f'.leader_id ≡ l.cfg.id
  pub role : is_leader f'.role ≡ false

-- A follower of no newer term whose log matches the leader's, and which has the entry before the
-- new ones, accepts what the leader's replication task sends: its log becomes the leader's or
-- already begins with it, its commit index the larger of the two, its term and leader the
-- leader's, and it leads no more.
pub handle_append_entries-Agrees :
    (l f : Raft) (peer : String) (term now : ℕ) (args : AppendEntriesArgs)
    → replicate_to peer term l ≡ request args
    → f.current_term ≤ l.current_term
    → l.commit_index < length l.log
    → Matching f.log l.log
    → has_term f.log args.prev_log_index args.prev_log_term ≡ true
    → ((handle_append_entries now args f).1.success ≡ true)
      × Agrees l f (handle_append_entries now args f).0
handle_append_entries-Agrees l f peer term now args sent newer inside m has =
    rw (handle_append_entries-accept now args f (omega (arith, s.term)) has) (refl, agrees)
  where
    s : Sent l args
    s = replicate_to-Sent peer term l args sent

    g : Raft
    g = follow now args (observe_term now args.term f)

    frame :
        (g.log ≡ f.log)
        × (g.commit_index ≡ f.commit_index)
        × (g.current_term ≡ args.term)
        × (g.leader_id ≡ args.leader_id)
        × (g.role ≡ follower)
    frame = follow-frame now args f (omega (arith, s.term))

    merged : Merged f.log l.log (append_loop (args.prev_log_index + 1) args.entries g.log)
    merged = rw frame.0 (Sent-Merged l args f.log s m has)

    fits : args.leader_commit < length (append_loop (args.prev_log_index + 1) args.entries g.log)
    fits = omega (arith, s.commit, Merged-length f.log l.log _ merged)

    agrees : Agrees l f (accept args g)
    agrees = record {
      log = rw (accept-log args g) merged;
      commit = omega (arith, accept-commit args g fits, frame.1, s.commit);
      term = (accept-frame args g).0 ∙ frame.2 ∙ s.term;
      hint = (accept-frame args g).1 ∙ frame.3 ∙ s.sender;
      role = ap is_leader ((accept-frame args g).2 ∙ frame.4);
    }
