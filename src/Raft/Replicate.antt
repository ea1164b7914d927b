-- ===== src/Raft/Replicate.antt =====
-- raft.py, lines 250-288: how a leader replicates its log to a peer, and what it commits.
pub mod Request
pub mod Advance
pub mod Leading
use dssd.Prelude.{
  ℕ, zero, suc, ◌+◌, ◌-◌, String, Bool, true, false, not, ◌||◌, Option, none, some, List, [], ◌∷◌,
  get_elem?, drop, length, ltb, leb, ◌==◌, if◌then◌else◌, Dict, lookup, insert,
}
use dssd.Raft.State.{Raft, LogEntry, is_leader, last_index, majority, become_follower}
use dssd.Raft.Append.{AppendEntriesArgs, AppendEntriesReply}
use dssd.Raft.Log.{has_term}

-- What a replication task does first: nothing, send a request, or die of an exception (a peer
-- with no `next_index`, a place outside the log, a negative number in the request).
pub data Sending : Type 0 where
  quiet : Sending
  request : AppendEntriesArgs → Sending
  fault : Sending

unfoldable pub append_args : Raft → (next_index prev_term : ℕ) → AppendEntriesArgs
append_args r next_index prev_term = record {
  group = r.cfg.group;
  term = r.current_term;
  leader_id = r.cfg.id;
  prev_log_index = next_index - 1;
  prev_log_term = prev_term;
  entries = drop next_index r.log;
  leader_commit = r.commit_index;
}

unfoldable pub send_from : Raft → Option ℕ → Sending
unfolding append_args
send_from r none = fault
send_from r (some zero) = fault
send_from r (some (suc prev)) = elim (get_elem? r.log prev) [
  | none ↦ fault
  | some e ↦ request (append_args r (suc prev) e.term)
]

-- `_replicate_to`, up to the send.
unfoldable pub replicate_to : (peer : String) (term : ℕ) → Raft → Sending
unfolding send_from lookup
replicate_to peer term r =
    if not (is_leader r.role) || not (r.current_term == term)
    then quiet
    else send_from r (lookup peer r.next_index)

-- How many of these peers have entry `n`; `none` is the KeyError of a peer that is missing.
unfoldable pub count_replicas : Dict ℕ → ℕ → List String → Option ℕ
unfolding lookup
count_replicas d n [] = some 0
count_replicas d n (p ∷ ps) =
    let rest = count_replicas d n ps in
    elim (lookup p d) [
      | none ↦ none
      | some m ↦ elim rest [ none ↦ none | some c ↦ some ((if leb n m then 1 else 0) + c) ]
    ]

-- The loop from `n` down to the commit index.
unfoldable pub advance_loop : Raft → ℕ → Option Raft
unfolding has_term count_replicas
advance_loop r zero = some r
advance_loop r (suc n) =
    let rest = advance_loop r n in
    if leb (suc n) r.commit_index
    then some r
    else if not (has_term r.log (suc n) r.current_term)
    then rest
    else elim (count_replicas r.match_index (suc n) r.cfg.peers) [
      | none ↦ none
      | some c ↦
          if leb (majority r) (1 + c)
          then some (record r { commit_index = suc n; apply_signal = true })
          else rest
    ]

unfoldable pub advance_commit_index : Raft → Option Raft
unfolding advance_loop
advance_commit_index r = advance_loop r (last_index r)

-- The reply says that the peer has everything up to `matched`.
unfoldable pub acknowledge : (peer : String) (matched : ℕ) → Raft → Option Raft
acknowledge peer matched r = advance_commit_index (record r {
  match_index = insert peer matched r.match_index;
  next_index = insert peer (matched + 1) r.next_index;
})

-- The reply says that the peer lacks the entry before the new ones.
unfoldable pub back_up : (peer : String) → Raft → Option Raft
back_up peer r = elim (lookup peer r.next_index) [
  | none ↦ none
  | some n ↦
      if ltb 1 n then some (record r { next_index = insert peer (n - 1) r.next_index }) else some r
]

-- `_replicate_to`, from the reply on. An unreachable peer is the outer `none`; the result is
-- `none` where a KeyError would end the task.
unfoldable pub on_append_reply :
    (now : ℕ) (peer : String) → AppendEntriesArgs → Option AppendEntriesReply → Raft → Option Raft
unfolding become_follower acknowledge back_up
on_append_reply now peer args none r = some r
on_append_reply now peer args (some reply) r =
    if ltb r.current_term reply.term
    then some (become_follower now reply.term r)
    else if not (is_leader r.role) || not (r.current_term == args.term)
    then some r
    else if reply.success
    then acknowledge peer (args.prev_log_index + length args.entries) r
    else back_up peer r
