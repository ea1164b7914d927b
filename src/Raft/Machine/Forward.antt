-- ===== src/Raft/Machine/Forward.antt =====
-- The steps of a node that apply nothing: the commit index does not fall.
use dssd.Prelude.{
  ℕ, zero, suc, ◌+◌, ◌≤◌, ◌<◌, ◌≡◌, refl, inl, inr, String, some, List, length, insert, arith,
}
use dssd.Raft.State.{Raft, start, propose, become_leader, become_follower, last_index}
use dssd.Raft.Vote.{
  RequestVoteArgs, RequestVoteReply, Election, ask, handle_request_vote, start_election,
  observe_term,
}
use dssd.Raft.Append.{
  AppendEntriesArgs, AppendEntriesReply, handle_append_entries, follow, accept, follow_commit,
}
use dssd.Raft.Replicate.{on_append_reply, acknowledge, back_up, advance_commit_index, advance_loop}
use dssd.Raft.Apply.{run_once}
use dssd.Raft.Group.Effects.{Accepts, handle_append_entries-cases}
use dssd.Raft.Machine.Still.{handle_append_entries-Still}

pub record Forward (r r' : Raft) : Type 0 where
  pub applied : r'.last_applied ≡ r.last_applied
  pub commit : r.commit_index ≤ r'.commit_index

pub start-Forward : (now : ℕ) (r : Raft) → Forward r (start now r)
unfolding start
start-Forward now r = record { applied = refl; commit = omega arith }

pub run_once-Forward : (now timeout : ℕ) (r : Raft) → Forward r (run_once now timeout r).0
unfolding run_once start_election
run_once-Forward now timeout r = ground arith

pub start_election-Forward :
    (now timeout : ℕ) (r : Raft) → Forward r (start_election now timeout r).0
unfolding start_election
start_election-Forward now timeout r = record { applied = refl; commit = omega arith }

pub handle_request_vote-Forward :
    (now : ℕ) (args : RequestVoteArgs) (r : Raft) → Forward r (handle_request_vote now args r).0
unfolding handle_request_vote observe_term
handle_request_vote-Forward now args r = ground arith

pub propose-Forward : (r : Raft) (command : List ℕ) → Forward r (propose r command).0
unfolding propose
propose-Forward r command = ground arith

pub ask-Forward :
    (now : ℕ) (reply : RequestVoteReply) (r : Raft) (e : Election)
    → Forward r (ask now (some reply) (r, e)).0
unfolding ask become_leader become_follower propose
ask-Forward now reply r e = ground arith

advance_loop-Forward : (r r' : Raft) (n : ℕ) → advance_loop r n ≡ some r' → Forward r r'
unfolding advance_loop
advance_loop-Forward r r' zero h = ground arith
advance_loop-Forward r r' (suc n) h = ground (arith, advance_loop-Forward r r' n)

acknowledge-Forward :
    (peer : String) (matched : ℕ) (r r' : Raft)
    → acknowledge peer matched r ≡ some r'
    → Forward r r'
unfolding acknowledge advance_commit_index
acknowledge-Forward peer matched r r' h =
    let forward : Forward
        (record r {
          match_index = insert peer matched r.match_index;
          next_index = insert peer (matched + 1) r.next_index;
        })
        r' =
      advance_loop-Forward _ r' (last_index r) h in
    record { applied = forward.applied; commit = forward.commit }

back_up-Forward : (peer : String) (r r' : Raft) → back_up peer r ≡ some r' → Forward r r'
unfolding back_up
back_up-Forward peer r r' h = ground arith

pub on_append_reply-Forward :
    (now : ℕ) (peer : String) (args : AppendEntriesArgs) (reply : AppendEntriesReply) (r r' : Raft)
    → on_append_reply now peer args (some reply) r ≡ some r'
    → Forward r r'
unfolding on_append_reply
on_append_reply-Forward now peer args reply r r' h = ground (
  arith,
  acknowledge-Forward peer (args.prev_log_index + length args.entries) r r',
  back_up-Forward peer r r',
)

handle_append_entries-applied :
    (now : ℕ) (args : AppendEntriesArgs) (r : Raft)
    → (handle_append_entries now args r).0.last_applied ≡ r.last_applied
unfolding handle_append_entries observe_term follow accept follow_commit
handle_append_entries-applied now args r = ground arith

-- Where the log still holds what was committed.
pub handle_append_entries-Forward :
    (now : ℕ) (args : AppendEntriesArgs) (r : Raft)
    → (Accepts args r (handle_append_entries now args r).0
        → r.commit_index < length (handle_append_entries now args r).0.log)
    → Forward r (handle_append_entries now args r).0
handle_append_entries-Forward now args r inside = record {
  applied = handle_append_entries-applied now args r;
  commit = elim (handle_append_entries-cases now args r) [
    | inl (_, failed) ↦ omega (arith, (handle_append_entries-Still now args r failed).commit)
    | inr a ↦ elim a.commit [ inl kept ↦ omega arith | inr (low, new) ↦ omega (arith, inside a) ]
  ];
}
