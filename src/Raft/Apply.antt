-- ===== src/Raft/Apply.antt =====
-- raft.py, lines 140-149 and 292-298: the timer loop, and the delivery of committed entries.
pub mod Deliver
use dssd.Prelude.{
  ℕ, zero, suc, ◌+◌, ◌-◌, String, Bool, true, false, Option, none, some, List, [], ◌∷◌, get_elem?,
  leb, if◌then◌else◌,
}
use dssd.Raft.State.{Raft, LogEntry, is_leader}
use dssd.Raft.Vote.{RequestVoteArgs, Election, start_election}

-- What one round of `_run` starts: nothing, a replication task for each peer, or an election.
pub data Action : Type 0 where
  idle : Action
  heartbeat : (peers : List String) (term : ℕ) → Action
  campaign : RequestVoteArgs → Election → Action

unfoldable pub run_once : (now timeout : ℕ) → Raft → Raft × Action
unfolding start_election
run_once now timeout r =
    if is_leader r.role
    then (if leb (r.last_heartbeat_sent + r.cfg.heartbeat_interval) now
        then (record r { last_heartbeat_sent = now }, heartbeat r.cfg.peers r.current_term)
        else (r, idle))
    else if leb (r.last_contact + r.election_timeout) now
    then (let (r', args, e) = start_election now timeout r in (r', campaign args e))
    else (r, idle)

-- The inner loop of `_applier`, `rounds` times: the entries handed to `apply`, in order. `none`
-- is the IndexError of a place outside the log.
unfoldable pub apply_loop : (rounds : ℕ) → Raft → Option (Raft × List LogEntry)
apply_loop zero r = some (r, [])
apply_loop (suc rounds) r =
    let rest = apply_loop rounds (record r { last_applied = r.last_applied + 1 }) in
    elim (get_elem? r.log (r.last_applied + 1)) [
      | none ↦ none
      | some e ↦ elim rest [ none ↦ none | some (r', es) ↦ some (r', e ∷ es) ]
    ]

-- One wake-up of `_applier`: `while last_applied < commit_index`.
unfoldable pub applier : Raft → Option (Raft × List LogEntry)
unfolding apply_loop
applier r = apply_loop (r.commit_index - r.last_applied) (record r { apply_signal = false })
