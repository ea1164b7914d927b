-- ===== src/Checks/Replication.antt =====
-- raft.py: a leader of term 2, a follower with a stale suffix, and what they exchange.
use dssd.Prelude.{
  ◌++◌, ℕ, zero, suc, ◌≤◌, lookup, ◌≡◌, refl, inl, inr, true, false, Option, some, [], ◌∷◌, take,
  drop, Bool-cases, str_eq, arith,
}
use dssd.Raft.State.{Raft, Config, LogEntry, candidate, init, sentinel, become_leader}
use dssd.Raft.Log.{has_term, Matching}
use dssd.Raft.Append.{AppendEntriesArgs, AppendEntriesReply, handle_append_entries}
use dssd.Raft.Append.Again.{Unmoved, handle_append_entries_again}
use dssd.Raft.Append.Committed.{Commits, handle_append_entries-Commits}
use dssd.Raft.Agreement.{Agrees, handle_append_entries-Agrees}
use dssd.Raft.CatchUp.Round.{IsPair, CaughtUp}
use dssd.Raft.CatchUp.Finish.{rounds-CaughtUp}
use dssd.Raft.CatchUp.Commit.{CommitsAll, rounds-CommitsAll}
use mathlib.Core.Option
use dssd.Raft.Replicate.{replicate_to, request, advance_commit_index}
use dssd.Raft.Replicate.Advance.{Covers, Advanced, advance_commit_index-Advanced}
use dssd.Raft.Replicate.Leading.{IsLeading, become_leader-IsLeading}
use dssd.Raft.Apply.{applier}
use dssd.Raft.Apply.Deliver.{applier-delivers}

abbrev config : Config
config = record { id = "a"; peers = "b" ∷ "c" ∷ []; group = ""; heartbeat_interval = 5 }

abbrev entry : ℕ → ℕ → LogEntry
entry t i = record { term = t; index = i; command = i ∷ [] }

-- Elected in term 2 with one entry, and about to add its no-op.
abbrev won : Raft
won = record (init config 20) {
  current_term = 2;
  role = candidate;
  log = sentinel ∷ entry 1 1 ∷ [];
}

abbrev chief : Raft
chief = become_leader won

-- A follower that holds an entry of term 1 which never was committed.
abbrev lagging : Raft
lagging = record (init (record config { id = "b" }) 20) {
  current_term = 1;
  log = sentinel ∷ entry 1 1 ∷ entry 1 2 ∷ [];
}

abbrev message : AppendEntriesArgs
message = record {
  group = "";
  term = 2;
  leader_id = "a";
  prev_log_index = 1;
  prev_log_term = 1;
  entries = record { term = 2; index = 2; command = [] } ∷ [];
  leader_commit = 0;
}

message_sent : replicate_to "b" 2 chief ≡ request message
unfolding replicate_to become_leader init
message_sent = refl

-- The stale entry is gone, the leader's is in its place.
overwritten :
    (handle_append_entries 9 message lagging).0.log
    ≡ sentinel ∷ entry 1 1 ∷ record { term = 2; index = 2; command = [] } ∷ []
unfolding handle_append_entries init has_term
overwritten = refl

agree_at :
    (i t : ℕ)
    → has_term lagging.log i t ≡ true
    → has_term chief.log i t ≡ true
    → take (suc i) lagging.log ≡ take (suc i) chief.log
unfolding has_term become_leader init
agree_at zero t f l = refl
agree_at (suc zero) t f l = refl
agree_at (suc (suc zero)) t f l = ground arith
agree_at (suc (suc (suc i))) t f l = cc

logs_match : Matching lagging.log chief.log
logs_match = record { agree = agree_at }

handle_append_entries-Agrees_example :
    ((handle_append_entries 9 message lagging).1.success ≡ true)
    × Agrees chief lagging (handle_append_entries 9 message lagging).0
unfolding become_leader init has_term
handle_append_entries-Agrees_example =
    handle_append_entries-Agrees chief lagging "b" 2 9 message message_sent (omega arith)
      (omega arith) logs_match refl

-- One more entry has come, and the message comes again.
abbrev further : Raft
further = record (handle_append_entries 9 message lagging).0 {
  log = (handle_append_entries 9 message lagging).0.log ++ entry 2 3 ∷ [];
  commit_index = 1;
}

handle_append_entries_again_example :
    ((handle_append_entries 12 message further).1 ≡ (handle_append_entries 9 message lagging).1)
    × Unmoved message further (handle_append_entries 12 message further).0
unfolding handle_append_entries init has_term
handle_append_entries_again_example =
    handle_append_entries_again 9 12 message lagging further (entry 2 3 ∷ []) refl refl refl
      (omega arith)

-- The follower with the first entry committed.
abbrev committed : Raft
committed = record lagging { commit_index = 1 }

handle_append_entries-Commits_example :
    Commits committed (handle_append_entries 9 message committed).0
unfolding init
handle_append_entries-Commits_example =
    handle_append_entries-Commits 9 message committed (omega arith) (λ h. absurd (omega arith), tt)

won_IsLeading : IsLeading chief
unfolding init
won_IsLeading = become_leader-IsLeading won refl (omega arith)

acked : Option AppendEntriesReply
acked = some (record { term = 2; success = true })

-- One peer has the no-op: with the leader itself, a majority of three.
abbrev half_way : Raft
half_way = record chief { match_index = ("b", 2) ∷ ("c", 0) ∷ [] }

half_way-Covers : Covers half_way.match_index half_way.cfg.peers
unfolding Covers become_leader init lookup
half_way-Covers p h = elim (Bool-cases (str_eq "b" p)) [
  | inl hit ↦ (2, rw hit)
  | inr miss ↦ (0, ground arith)
]

advance_commit_index-Advanced_example :
    (r : Raft) × (advance_commit_index half_way ≡ some r) × Advanced half_way r
advance_commit_index-Advanced_example = advance_commit_index-Advanced half_way half_way-Covers

commits_noop : Option.map (λ (r : Raft). r.commit_index) (advance_commit_index half_way) ≡ some 2
unfolding advance_commit_index become_leader init lookup
commits_noop = refl

abbrev behind : Raft
behind = record chief { commit_index = 2; last_applied = 0 }

applier-delivers_example :
    applier behind
    ≡ some (record behind { last_applied = 2; apply_signal = false }, drop 1 chief.log)
unfolding become_leader init
applier-delivers_example = applier-delivers behind (omega arith) (omega arith)

-- A peer that has nothing yet, and refuses the first request.
abbrev blank : Raft
blank = init (record config { id = "b" }) 20

blank_agree_at :
    (i t : ℕ)
    → has_term blank.log i t ≡ true
    → has_term chief.log i t ≡ true
    → take (suc i) blank.log ≡ take (suc i) chief.log
unfolding has_term become_leader init
blank_agree_at zero t f l = refl
blank_agree_at (suc i) t f l = ground arith

blank-IsPair : IsPair "b" chief blank
unfolding become_leader init has_term
blank-IsPair = record {
  leads = refl;
  tables = won_IsLeading;
  member = refl;
  inside = omega arith;
  first = refl;
  first_peer = refl;
  newer = omega arith;
  matching = record { agree = blank_agree_at };
}

rounds-CaughtUp_example :
    (n : ℕ) × (lookup "b" chief.next_index ≡ some n)
    × ((k : ℕ) × (k ≤ n) × CaughtUp "b" 9 chief blank k)
rounds-CaughtUp_example = rounds-CaughtUp "b" 9 chief blank blank-IsPair

rounds-CommitsAll_example : CommitsAll "b" 9 chief blank
unfolding become_leader init has_term lookup
rounds-CommitsAll_example = rounds-CommitsAll "b" 9 chief blank blank-IsPair refl (omega arith)
