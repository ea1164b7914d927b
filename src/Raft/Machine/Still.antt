-- ===== src/Raft/Machine/Still.antt =====
-- The steps of a node that commit nothing.
use dssd.Prelude.{ℕ, ◌+◌, ◌≡◌, ◌≢◌, refl, inl, inr, false, some, List, Bool-cases, leb, arith}
use dssd.Raft.State.{Raft, LogEntry, is_leader, start, propose}
use dssd.Raft.Vote.{RequestVoteArgs, Election, observe_term, handle_request_vote, start_election}
use dssd.Raft.Append.{AppendEntriesArgs, handle_append_entries, follow}
use dssd.Raft.Apply.{run_once, campaign, applier}
use dssd.Raft.Apply.Deliver.{applier-frame}
use dssd.Raft.Machine.{Alone, restarts, ticks, applies}
use dssd.Raft.Group.Effects.{Still}

run_once-Still :
    (now timeout : ℕ) (r : Raft)
    → ((args : RequestVoteArgs) (e : Election) → (run_once now timeout r).1 ≢ campaign args e)
    → Still r (run_once now timeout r).0
unfolding run_once start_election
run_once-Still now timeout r h = elim (Bool-cases (is_leader r.role)) [
  | inl leads ↦ ground arith
  | inr other ↦ elim (Bool-cases (leb (r.last_contact + r.election_timeout) now)) [
    | inl late ↦ absurd (
        h (start_election now timeout r).1 (start_election now timeout r).2
          (rw (run_once, other, late) refl))
    | inr early ↦ ground arith
  ]
]

start-Still : (now : ℕ) (r : Raft) → Still r (start now r)
unfolding start
start-Still now r = record { commit = refl; matched = λ h. refl }

applier-Still : (r r' : Raft) (es : List LogEntry) → applier r ≡ some (r', es) → Still r r'
applier-Still r r' es h = ground (arith, applier-frame r r' es h)

pub Alone-Still : (r r' : Raft) → Alone r r' → Still r r'
Alone-Still r r' (restarts now) = start-Still now r
Alone-Still r r' (ticks now timeout h) = run_once-Still now timeout r h
Alone-Still r r' (applies {es = es} h) = applier-Still r r' es h

pub start_election-Still : (now timeout : ℕ) (r : Raft) → Still r (start_election now timeout r).0
unfolding start_election
start_election-Still now timeout r = record { commit = refl; matched = λ h. refl }

pub handle_request_vote-Still :
    (now : ℕ) (args : RequestVoteArgs) (r : Raft) → Still r (handle_request_vote now args r).0
unfolding handle_request_vote
handle_request_vote-Still now args r = ground arith

pub propose-Still : (r : Raft) (command : List ℕ) → Still r (propose r command).0
unfolding propose
propose-Still r command = ground arith

pub handle_append_entries-Still :
    (now : ℕ) (args : AppendEntriesArgs) (r : Raft)
    → (handle_append_entries now args r).1.success ≡ false
    → Still r (handle_append_entries now args r).0
unfolding handle_append_entries observe_term follow
handle_append_entries-Still now args r h = ground arith
