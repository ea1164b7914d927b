-- ===== src/Raft/State.antt =====
-- raft.py, lines 34-136 and 187-205: the roles, the configuration, the node's state, and the
-- methods that need no message. Times are numbers in any fixed unit; the clock's reading `now` and
-- the random timeout are arguments. A command is a list of bytes.
use dssd.Prelude.{
  ℕ, ◌+◌, ◌-◌, ◌/◌, String, Bool, true, false, List, [], ◌∷◌, ◌++◌, length, drop, get_last_or,
  if◌then◌else◌, Dict, fill,
}

pub data Role : Type 0 where
  follower candidate leader : Role

-- `self._role == Role.LEADER` and the like
abbrev pub is_leader : Role → Bool
is_leader leader = true
is_leader _ = false

abbrev pub is_candidate : Role → Bool
is_candidate candidate = true
is_candidate _ = false

pub record Config : Type 0 where
  pub id : String
  pub peers : List String
  pub group : String
  pub heartbeat_interval : ℕ

pub record LogEntry : Type 0 where
  pub term : ℕ
  pub index : ℕ
  pub command : List ℕ

pub record Raft : Type 0 where
  pub cfg : Config
  pub current_term : ℕ
  pub voted_for : String
  pub log : List LogEntry
  pub role : Role
  pub leader_id : String
  pub commit_index : ℕ
  pub last_applied : ℕ
  pub next_index : Dict ℕ
  pub match_index : Dict ℕ
  pub last_contact : ℕ
  pub election_timeout : ℕ
  pub last_heartbeat_sent : ℕ
  pub apply_signal : Bool

abbrev pub sentinel : LogEntry
sentinel = record { term = 0; index = 0; command = [] }

unfoldable pub init : Config → (timeout : ℕ) → Raft
init config timeout = record {
  cfg = config;
  current_term = 0;
  voted_for = "";
  log = sentinel ∷ [];
  role = follower;
  leader_id = "";
  commit_index = 0;
  last_applied = 0;
  next_index = [];
  match_index = [];
  last_contact = 0;
  election_timeout = timeout;
  last_heartbeat_sent = 0;
  apply_signal = false;
}

-- A crashed node comes back: term, vote and log survive, the role does not.
unfoldable pub start : (now : ℕ) → Raft → Raft
start now r = record r { role = follower; leader_id = ""; last_contact = now }

abbrev pub state : Raft → ℕ × Bool
state r = (r.current_term, is_leader r.role)

abbrev pub leader_hint : Raft → String × ℕ
leader_hint r = (r.leader_id, r.current_term)

-- Every entry but the sentinel.
abbrev pub entries : Raft → List LogEntry
entries r = drop 1 r.log

abbrev pub last_index : Raft → ℕ
last_index r = length r.log - 1

-- `self._log[-1]`; the log is never empty (`IsLog`), where Python would raise IndexError.
abbrev pub last_entry : Raft → LogEntry
last_entry r = get_last_or r.log sentinel

-- Returns (index, term, is_leader).
unfoldable pub propose : Raft → List ℕ → Raft × ℕ × ℕ × Bool
propose r command =
    if is_leader r.role
    then (record r { log = r.log ++ entry ∷ [] }, entry.index, entry.term, true)
    else (r, 0, 0, false)
  where
    entry : LogEntry
    entry = record { term = r.current_term; index = length r.log; command = command }

abbrev pub majority : Raft → ℕ
majority r = (length r.cfg.peers + 1) / 2 + 1

unfoldable pub become_follower : (now term : ℕ) → Raft → Raft
become_follower now term r = record r {
  current_term = term;
  voted_for = "";
  role = follower;
  last_contact = now;
}

unfoldable pub become_leader : Raft → Raft
unfolding propose fill
become_leader r =
    if is_candidate r.role
    then (propose
        (record r {
          role = leader;
          leader_id = r.cfg.id;
          next_index = fill r.cfg.peers (length r.log) [];
          match_index = fill r.cfg.peers 0 [];
          last_heartbeat_sent = 0;
        })
        []).0
    else r
