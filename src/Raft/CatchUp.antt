-- ===== src/Raft/CatchUp.antt =====
-- raft.py, `_replicate_to` and `handle_append_entries`: what passes between a leader and one peer
-- over a network that delivers, one request and its reply after the other.
pub mod Round
pub mod Finish
pub mod Commit
use dssd.Prelude.{ℕ, zero, suc, String, Option, none, some}
use dssd.Raft.State.{Raft}
use dssd.Raft.Append.{handle_append_entries}
use dssd.Raft.Replicate.{quiet, request, fault, replicate_to, on_append_reply}

-- `_replicate_to`, whose send reaches the peer and whose reply comes back: the leader and the peer.
unfoldable pub exchange : (now : ℕ) (peer : String) → Raft × Raft → Option (Raft × Raft)
unfolding replicate_to handle_append_entries on_append_reply
exchange now peer (l, f) = elim (replicate_to peer l.current_term l) [
  | quiet ↦ some (l, f)
  | fault ↦ none
  | request args ↦
      let (f', reply) = handle_append_entries now args f in
      elim (on_append_reply now peer args (some reply) l) [ none ↦ none | some l' ↦ some (l', f') ]
]

-- Heartbeat after heartbeat.
unfoldable pub rounds : (k now : ℕ) (peer : String) → Raft × Raft → Option (Raft × Raft)
unfolding exchange
rounds zero now peer s = some s
rounds (suc k) now peer s = elim (exchange now peer s) [
  | none ↦ none
  | some s' ↦ rounds k now peer s'
]
