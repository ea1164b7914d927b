-- ===== src/Checks/Agreement.antt =====
-- raft.py: two nodes elect a leader, commit its first entry and agree on it, by evaluation.
use mathlib.Core.List.{Permᴰ, Memᴰ}
use mathlib.Core.List.Permᴰ
use dssd.Raft.Apply.{applier}
use dssd.Raft.Machine.Delivered.{delivered}
use dssd.Raft.Machine.Replicas.{delivered_agree}
use dssd.Prelude.{
  ◌⊎◌, ◌++◌, ◌+◌, false, List, ◌≡◌, ◌<◌, ◌≤◌, suc, refl, inl, inr, true, some, none, [], ◌∷◌,
  length, take, str_eq, eq_iff, Bool-cases, str_eq→eq, subst, arith,
}
use dssd.Raft.State.{LogEntry, Raft, init, is_leader}
use dssd.Raft.Vote.{handle_request_vote, start_election, ask}
use dssd.Raft.Append.{AppendEntriesArgs, handle_append_entries}
use dssd.Raft.Log.{has_term}
use dssd.Raft.Replicate.{advance_commit_index, replicate_to, on_append_reply}
use dssd.Raft.Cluster.{System, put, initial, stand, answer, hear}
use dssd.Raft.Group.{receive, new_group}
use dssd.Raft.Machine.{
  Machine, alone, applies, Answer, MachineReach, starts, runs, new_machine, stands, answers, counts,
  sends, receives, gets,
}
use dssd.Raft.Machine.Start.{IsGroup}
use dssd.Raft.Machine.Safety.{committed_agree, leader_has_committed}
use dssd.Checks.Election.{config, pair, request, elected, no_op, config-IsConfigured}

pair-IsGroup : IsGroup pair config
unfolding IsGroup
pair-IsGroup i h = elim (Bool-cases (str_eq "a" i)) [
  | inl a ↦
      subst (λ x. Permᴰ ((config x).id ∷ (config x).peers) pair) (str_eq→eq "a" i a)
        (Permᴰ.refl pair)
  | inr other ↦
      subst (λ x. Permᴰ ((config x).id ∷ (config x).peers) pair)
        (str_eq→eq "b" i (ground (arith, h, other))) (Permᴰ.swap refl refl)
]

-- The follower has taken the no-op over.
abbrev told : System
told = receive "b" 104 no_op elected

abbrev reply_b : Answer
reply_b = record {
  from = "b";
  args = no_op;
  reply = (handle_append_entries 104 no_op (elected.node "b")).1;
}

-- The leader after the follower's answer.
abbrev committer : Raft
committer = elim (on_append_reply 106 "b" no_op (some reply_b.reply) (told.node "a")) [
  | none ↦ told.node "a"
  | some r ↦ r
]

abbrev counted : System
counted = record told { node = put told.node "a" committer }

-- The next round carries the commit index.
abbrev heartbeat : AppendEntriesArgs
heartbeat = record {
  group = "";
  term = 1;
  leader_id = "a";
  prev_log_index = 1;
  prev_log_term = 1;
  entries = [];
  leader_commit = 1;
}

abbrev agreed : Machine
agreed = record {
  sys = receive "b" 110 heartbeat counted;
  asked = request ∷ [];
  sent = heartbeat ∷ no_op ∷ [];
  replies =
      record {
        from = "b";
        args = heartbeat;
        reply = (handle_append_entries 110 heartbeat (counted.node "b")).1;
      }
      ∷ reply_b
      ∷ [];
}

agreed_run : MachineReach pair (new_machine config (λ _. 20)) agreed
unfolding new_machine new_group hear answer stand init start_election ask handle_request_vote
    receive replicate_to on_append_reply handle_append_entries has_term advance_commit_index
agreed_run =
    runs
      (runs
        (runs
          (runs
            (runs
              (runs
                (runs (runs starts (stands "a" 100 20 refl))
                  (answers "b" 101 request refl (ground (arith, eq_iff "a" "")) (Memᴰ.head refl)))
                (counts "a" 1 "b" 102 (record { term = 1; vote_granted = true }) refl refl refl
                  (λ _. refl)))
              (sends "a" "b" 1 no_op refl refl))
            (receives "b" 104 no_op refl (Memᴰ.head refl)))
          (gets "a" 106 reply_b refl refl (Memᴰ.head refl) refl))
        (sends "a" "b" 1 heartbeat refl refl))
      (receives "b" 110 heartbeat refl (Memᴰ.head refl))

-- Both count the entry as committed.
a_commits : (agreed.sys.node "a").commit_index ≡ 1
unfolding hear answer stand initial init start_election ask handle_request_vote receive
    on_append_reply handle_append_entries has_term advance_commit_index
a_commits = refl

b_commits : (agreed.sys.node "b").commit_index ≡ 1
unfolding hear answer stand initial init start_election ask handle_request_vote receive
    on_append_reply handle_append_entries has_term advance_commit_index
b_commits = refl

a_leads : is_leader (agreed.sys.node "a").role ≡ true
unfolding hear answer stand initial init start_election ask handle_request_vote receive
    on_append_reply handle_append_entries has_term advance_commit_index
a_leads = refl

-- The follower is not in a later term than the leader.
terms : (agreed.sys.node "b").current_term ≤ (agreed.sys.node "a").current_term
unfolding hear answer stand initial init start_election ask handle_request_vote receive
    on_append_reply handle_append_entries has_term advance_commit_index
terms = omega arith

committed_agree_example : take 2 (agreed.sys.node "a").log ≡ take 2 (agreed.sys.node "b").log
committed_agree_example =
    committed_agree pair config (λ _. 20) agreed config-IsConfigured pair-IsGroup agreed_run "a" "b"
      refl refl 1 (omega (arith, a_commits)) (omega (arith, b_commits))

leader_has_committed_example :
    ((agreed.sys.node "b").commit_index < length (agreed.sys.node "b").log)
    × (take (suc (agreed.sys.node "b").commit_index) (agreed.sys.node "a").log
        ≡ take (suc (agreed.sys.node "b").commit_index) (agreed.sys.node "b").log)
leader_has_committed_example =
    leader_has_committed pair config (λ _. 20) agreed config-IsConfigured pair-IsGroup agreed_run
      "b" "a" refl refl a_leads terms

-- The leader after its applier has run.
abbrev applied_a : Raft
applied_a = record (agreed.sys.node "a") {
  last_applied = (agreed.sys.node "a").last_applied + 1;
  apply_signal = false;
}

abbrev applied : Machine
applied = record agreed { sys = record agreed.sys { node = put agreed.sys.node "a" applied_a } }

applied_run : MachineReach pair (new_machine config (λ _. 20)) applied
unfolding new_machine new_group hear answer stand init start_election ask handle_request_vote
    receive replicate_to on_append_reply handle_append_entries has_term advance_commit_index applier
applied_run =
    runs agreed_run
      (alone "a" refl (applies {es = record { term = 1; index = 1; command = [] } ∷ []} refl))

delivered_agree_example :
    ((ys : List LogEntry) × (delivered applied_run "a" ++ ys ≡ delivered applied_run "b"))
    ⊎ ((ys : List LogEntry) × (delivered applied_run "b" ++ ys ≡ delivered applied_run "a"))
delivered_agree_example =
    delivered_agree pair config (λ _. 20) applied config-IsConfigured pair-IsGroup applied_run "a"
      "b" refl refl
