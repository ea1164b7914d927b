-- ===== src/Raft/Node/Terms.antt =====
-- Terms and votes along any run of one node.
use dssd.Prelude.{
  ℕ, zero, suc, ◌+◌, ◌≤◌, ◌≡◌, ◌≢◌, refl, sym, ◌∙◌, String, Option, none, some, List, length,
  insert, arith, eq_iff,
}
use dssd.Raft.State.{Raft, LogEntry, start, propose, last_index}
use dssd.Raft.Vote.{RequestVoteArgs, RequestVoteReply, Election, ask, handle_request_vote}
use dssd.Raft.Append.{AppendEntriesArgs, AppendEntriesReply, handle_append_entries}
use dssd.Raft.Replicate.{on_append_reply, acknowledge, back_up, advance_commit_index, advance_loop}
use dssd.Raft.Apply.{run_once, applier}
use dssd.Raft.Apply.Deliver.{applier-frame}
use dssd.Raft.Node.{
  Step, Reach, restarts, proposes, ticks, counts, votes, follows, hears, applies, here, later,
}

-- The configuration stays, the term never falls, and within a term a vote, once cast, stays.
pub record Later (r s : Raft) : Type 0 where
  pub cfg : s.cfg ≡ r.cfg
  pub term : r.current_term ≤ s.current_term
  pub vote : r.current_term ≡ s.current_term → r.voted_for ≢ "" → s.voted_for ≡ r.voted_for

pub Later-refl : (r : Raft) → Later r r
Later-refl r = record { cfg = refl; term = omega arith; vote = λ _ _. refl }

pub Later-trans : (r s t : Raft) → Later r s → Later s t → Later r t
Later-trans r s t a b = record { cfg = b.cfg ∙ a.cfg; term = omega arith; vote = λ e n. held e n }
  where
    held : r.current_term ≡ t.current_term → r.voted_for ≢ "" → t.voted_for ≡ r.voted_for
    held e n =
        let first : s.voted_for ≡ r.voted_for = a.vote (omega arith) n in
        b.vote (omega arith) (λ f. n (sym first ∙ f)) ∙ first

-- A step that leaves term and vote alone.
Later-same :
    (r s : Raft)
    → s.cfg ≡ r.cfg
    → s.current_term ≡ r.current_term
    → s.voted_for ≡ r.voted_for
    → Later r s
Later-same r s c t v = record { cfg = c; term = omega arith; vote = λ _ _. v }

pub ask-Later :
    (now : ℕ) (reply : Option RequestVoteReply) (r : Raft) (e : Election)
    → Later r (ask now reply (r, e)).0
unfolding ask
ask-Later now none r e = Later-refl r
ask-Later now (some reply) r e = ground arith

pub handle_request_vote-Later :
    (now : ℕ) (args : RequestVoteArgs) (r : Raft) → Later r (handle_request_vote now args r).0
unfolding handle_request_vote
handle_request_vote-Later now args r =
    ground (arith, eq_iff r.voted_for "", eq_iff r.voted_for args.candidate_id)

pub handle_append_entries-Later :
    (now : ℕ) (args : AppendEntriesArgs) (r : Raft) → Later r (handle_append_entries now args r).0
unfolding handle_append_entries
handle_append_entries-Later now args r = ground arith

pub run_once-Later : (now timeout : ℕ) (r : Raft) → Later r (run_once now timeout r).0
unfolding run_once
run_once-Later now timeout r = ground arith

pub propose-Later : (r : Raft) (command : List ℕ) → Later r (propose r command).0
unfolding propose
propose-Later r command = ground arith

advance_loop-Later : (r r' : Raft) (n : ℕ) → advance_loop r n ≡ some r' → Later r r'
unfolding advance_loop
advance_loop-Later r r' zero h = ground arith
advance_loop-Later r r' (suc n) h = ground (arith, advance_loop-Later r r' n)

acknowledge-Later :
    (peer : String) (matched : ℕ) (r r' : Raft) → acknowledge peer matched r ≡ some r' → Later r r'
unfolding acknowledge advance_commit_index
acknowledge-Later peer matched r r' h =
    let later : Later
        (record r {
          match_index = insert peer matched r.match_index;
          next_index = insert peer (matched + 1) r.next_index;
        })
        r' =
      advance_loop-Later _ r' (last_index r) h in
    record { cfg = later.cfg; term = later.term; vote = later.vote }

back_up-Later : (peer : String) (r r' : Raft) → back_up peer r ≡ some r' → Later r r'
unfolding back_up
back_up-Later peer r r' h = ground arith

on_append_reply-Later :
    (now : ℕ) (peer : String) (args : AppendEntriesArgs) (reply : Option AppendEntriesReply)
    (r r' : Raft)
    → on_append_reply now peer args reply r ≡ some r'
    → Later r r'
unfolding on_append_reply
on_append_reply-Later now peer args none r r' h = ground arith
on_append_reply-Later now peer args (some reply) r r' h = ground (
  arith,
  acknowledge-Later peer (args.prev_log_index + length args.entries) r r',
  back_up-Later peer r r',
)

applier-Later : (r r' : Raft) (es : List LogEntry) → applier r ≡ some (r', es) → Later r r'
applier-Later r r' es h = ground (arith, applier-frame r r' es h)

-- Whatever happens to a node, its configuration stays, its term never falls, and within a term it does not change its vote.
pub Step-Later : {r s : Raft} → Step r s → Later r s
Step-Later {r} (restarts now) = unfold start in Later-same r _ refl refl refl
Step-Later {r} (proposes command) = propose-Later r command
Step-Later {r} (ticks now timeout) = run_once-Later now timeout r
Step-Later {r} (counts now reply e) = ask-Later now reply r e
Step-Later {r} (votes now args) = handle_request_vote-Later now args r
Step-Later {r} (follows now args) = handle_append_entries-Later now args r
Step-Later {r} {s} (hears now peer args reply h) = on_append_reply-Later now peer args reply r s h
Step-Later {r} {s} (applies {es = es} h) = applier-Later r s es h

-- Along any run of a node its configuration stays and its term never falls; while the term is the
-- same, a vote that was cast for some candidate stays cast for that candidate.
pub Reach-Later : {r s : Raft} → Reach r s → Later r s
Reach-Later {r} here = Later-refl r
Reach-Later {r} {s = t} (later {s = s} run step) =
    Later-trans r s t (Reach-Later run) (Step-Later step)
