-- ===== src/Raft/Group/Effects.antt =====
-- What each step of a node does to its log and its role.
use native.Mathlib.Decide.{dec_lt}
use dssd.Prelude.{
  ap, ◌∙◌, leb, ltb, ◌&&◌, ◌==◌, ℕ, zero, suc, ◌+◌, ◌-◌, min, ◌≤◌, ◌<◌, ◌≡◌, ◌≢◌, refl, ◌⊎◌, inl,
  inr, String, true, false, Option, none, some, List, [], ◌∷◌, ◌++◌, length, lookup, lookup-fill,
  insert, Bool-cases, arith,
}
use dssd.Raft.State.{
  Raft, LogEntry, is_leader, is_candidate, majority, last_index, start, propose, become_leader,
}
use dssd.Raft.Vote.{
  RequestVoteArgs, RequestVoteReply, Election, ask, handle_request_vote, start_election,
  observe_term,
}
use dssd.Raft.Append.{
  AppendEntriesArgs, AppendEntriesReply, append_loop, follow, accept, follow_commit,
  handle_append_entries,
}
use dssd.Raft.Append.Branches.{
  handle_append_entries-stale, handle_append_entries-mismatch, handle_append_entries-accept,
  accept-log, accept-frame, follow-frame,
}
use dssd.Raft.Log.{has_term}
use dssd.Raft.Replicate.{on_append_reply, acknowledge, back_up, advance_commit_index, advance_loop}
use dssd.Raft.Apply.{run_once, campaign, applier}
use dssd.Raft.Apply.Deliver.{applier-frame}

-- The log is as before. The node leads only if it did so before, in the same term, and stands only
-- if it did so before or in a new term.
pub record Calm (r s : Raft) : Type 0 where
  pub log : s.log ≡ r.log
  pub leads :
      is_leader s.role ≡ true → (is_leader r.role ≡ true) × (s.current_term ≡ r.current_term)
  pub stands :
      is_candidate s.role ≡ true
      → ((is_candidate r.role ≡ true) × (s.current_term ≡ r.current_term))
        ⊎ (r.current_term < s.current_term)

pub Calm-refl : (r : Raft) → Calm r r
Calm-refl r = record { log = refl; leads = λ h. (h, refl); stands = λ h. inl (h, refl) }

-- The node has committed nothing new, and learnt nothing of its peers.
pub record Still (r r' : Raft) : Type 0 where
  pub commit : r'.commit_index ≡ r.commit_index
  pub matched : is_leader r'.role ≡ true → r'.match_index ≡ r.match_index

Still-refl : (r : Raft) → Still r r
Still-refl r = record { commit = refl; matched = λ h. refl }

pub start-Calm : (now : ℕ) (r : Raft) → Calm r (start now r)
unfolding start
start-Calm now r = record { log = refl; leads = λ h. ground arith; stands = λ h. ground arith }

pub handle_request_vote-Calm :
    (now : ℕ) (args : RequestVoteArgs) (r : Raft) → Calm r (handle_request_vote now args r).0
unfolding handle_request_vote
handle_request_vote-Calm now args r = ground arith

advance_loop-Calm : (r r' : Raft) (n : ℕ) → advance_loop r n ≡ some r' → Calm r r'
unfolding advance_loop
advance_loop-Calm r r' zero h = ground arith
advance_loop-Calm r r' (suc n) h = ground (arith, advance_loop-Calm r r' n)

acknowledge-Calm :
    (peer : String) (matched : ℕ) (r r' : Raft) → acknowledge peer matched r ≡ some r' → Calm r r'
unfolding acknowledge advance_commit_index
acknowledge-Calm peer matched r r' h =
    let calm : Calm
        (record r {
          match_index = insert peer matched r.match_index;
          next_index = insert peer (matched + 1) r.next_index;
        })
        r' =
      advance_loop-Calm _ r' (last_index r) h in
    record { log = calm.log; leads = calm.leads; stands = calm.stands }

back_up-Calm : (peer : String) (r r' : Raft) → back_up peer r ≡ some r' → Calm r r'
unfolding back_up
back_up-Calm peer r r' h = ground arith

pub on_append_reply-Calm :
    (now : ℕ) (peer : String) (args : AppendEntriesArgs) (reply : Option AppendEntriesReply)
    (r r' : Raft)
    → on_append_reply now peer args reply r ≡ some r'
    → Calm r r'
unfolding on_append_reply
on_append_reply-Calm now peer args none r r' h = ground arith
on_append_reply-Calm now peer args (some reply) r r' h = ground (
  arith,
  acknowledge-Calm peer (args.prev_log_index + length args.entries) r r',
  back_up-Calm peer r r',
)

pub applier-Calm : (r r' : Raft) (es : List LogEntry) → applier r ≡ some (r', es) → Calm r r'
applier-Calm r r' es h = ground (arith, applier-frame r r' es h)

pub run_once-Calm :
    (now timeout : ℕ) (r : Raft)
    → ((args : RequestVoteArgs) (e : Election) → (run_once now timeout r).1 ≢ campaign args e)
    → Calm r (run_once now timeout r).0
unfolding run_once start_election
run_once-Calm now timeout r h = elim (Bool-cases (is_leader r.role)) [
  | inl leads ↦ ground arith
  | inr other ↦ elim (Bool-cases (leb (r.last_contact + r.election_timeout) now)) [
    | inl late ↦ absurd (
        h (start_election now timeout r).1 (start_election now timeout r).2
          (rw (run_once, other, late) refl))
    | inr early ↦ ground arith
  ]
]

pub start_election-Calm : (now timeout : ℕ) (r : Raft) → Calm r (start_election now timeout r).0
unfolding start_election
start_election-Calm now timeout r = record {
  log = refl;
  leads = λ h. ground arith;
  stands = λ h. inr (omega arith);
}

-- An entry that this node makes in its term.
abbrev pub made : Raft → List ℕ → LogEntry
made r command = record { term = r.current_term; index = length r.log; command = command }

pub propose-leader :
    (r : Raft) (command : List ℕ)
    → is_leader r.role ≡ true
    → (propose r command).0 ≡ record r { log = r.log ++ made r command ∷ [] }
unfolding propose
propose-leader r command h = ground arith

pub propose-other :
    (r : Raft) (command : List ℕ) → is_leader r.role ≡ false → (propose r command).0 ≡ r
unfolding propose
propose-other r command h = ground arith

-- A candidate that becomes the leader.
pub record Leads (r s : Raft) : Type 0 where
  pub stood : is_candidate r.role ≡ true
  pub log : s.log ≡ r.log ++ made r [] ∷ []
  pub term : s.current_term ≡ r.current_term
  pub leads : is_leader s.role ≡ true
  pub commit : s.commit_index ≡ r.commit_index
  pub none_known : (p : String) (k : ℕ) → lookup p s.match_index ≡ some k → k ≡ 0

become_leader-Leads : (r : Raft) → is_candidate r.role ≡ true → Leads r (become_leader r)
unfolding become_leader propose lookup
become_leader-Leads r h = rw h (record {
  stood = h;
  log = refl;
  term = refl;
  leads = refl;
  commit = refl;
  none_known = λ p k at. ground (arith, at, lookup-fill {V = ℕ} p r.cfg.peers 0 []);
})

-- What a reply makes of a candidate.
pub ask-cases :
    (now : ℕ) (reply : RequestVoteReply) (r : Raft) (e : Election)
    → (Calm r (ask now (some reply) (r, e)).0 × Still r (ask now (some reply) (r, e)).0)
      ⊎ (Leads r (ask now (some reply) (r, e)).0
          × (r.current_term ≡ e.term)
          × (majority r ≤ (ask now (some reply) (r, e)).1.votes))
unfolding ask
ask-cases now reply r e = elim (Bool-cases (ltb r.current_term reply.term)) [
  | inl newer ↦ inl (
      rw newer (
        record { log = refl; leads = λ h. ground arith; stands = λ h. ground arith },
        record { commit = refl; matched = λ h. refl },
      ))
  | inr older ↦
      elim (Bool-cases (is_candidate r.role && (r.current_term == e.term && reply.vote_granted))) [
        | inl counts ↦ elim (Bool-cases (leb (majority r) (e.votes + 1))) [
          | inl enough ↦
              rw (older, counts, enough)
                (inr (become_leader-Leads r (ground arith), ground arith, ground arith))
          | inr few ↦ rw (older, counts, few) (inl (Calm-refl r, Still-refl r))
        ]
        | inr not_counted ↦ rw (older, not_counted) (inl (Calm-refl r, Still-refl r))
      ]
]

accept-commits :
    (args : AppendEntriesArgs) (r : Raft)
    → ((accept args r).commit_index ≡ r.commit_index)
      ⊎ ((r.commit_index ≤ args.leader_commit)
          × ((accept args r).commit_index
              ≡ min args.leader_commit (length (accept args r).log - 1)))
unfolding accept follow_commit
accept-commits args r = ground arith

-- What a follower that accepts a request becomes.
pub record Accepts (args : AppendEntriesArgs) (r r' : Raft) : Type 0 where
  pub newer : r.current_term ≤ args.term
  pub has : has_term r.log args.prev_log_index args.prev_log_term ≡ true
  pub log : r'.log ≡ append_loop (args.prev_log_index + 1) args.entries r.log
  pub term : r'.current_term ≡ args.term
  pub commit :
      (r'.commit_index ≡ r.commit_index)
      ⊎ ((r.commit_index ≤ args.leader_commit)
          × (r'.commit_index ≡ min args.leader_commit (length r'.log - 1)))
  pub not_leader : is_leader r'.role ≡ false
  pub not_candidate : is_candidate r'.role ≡ false

-- What a request makes of a node: it refuses, and its log is as it was, or it follows with the
-- request's entries in its log.
pub handle_append_entries-cases :
    (now : ℕ) (args : AppendEntriesArgs) (r : Raft)
    → (Calm r (handle_append_entries now args r).0
        × ((handle_append_entries now args r).1.success ≡ false))
      ⊎ Accepts args r (handle_append_entries now args r).0
handle_append_entries-cases now args r = elim (dec_lt args.term r.current_term) [
  | yes old ↦ rw (handle_append_entries-stale now args r old) (inl (Calm-refl r, refl))
  | no fresh ↦
      let newer : r.current_term ≤ args.term = omega arith in
      let frame = follow-frame now args r newer in
      let g : Raft = follow now args (observe_term now args.term r) in
      elim (Bool-cases (has_term r.log args.prev_log_index args.prev_log_term)) [
        | inl has ↦
            let a = accept-frame args g in
            rw (handle_append_entries-accept now args r newer has) (
              inr (record {
                newer = newer;
                has = has;
                log =
                    accept-log args g
                    ∙ ap (append_loop (args.prev_log_index + 1) args.entries) frame.0;
                term = a.0 ∙ frame.2;
                commit = elim (accept-commits args g) [
                  | inl kept ↦ inl (kept ∙ frame.1)
                  | inr (low, new) ↦ inr (rw (← frame.1) low, new)
                ];
                not_leader = ap is_leader (a.2 ∙ frame.4);
                not_candidate = ap is_candidate (a.2 ∙ frame.4);
              }))
        | inr lacks ↦ rw (handle_append_entries-mismatch now args r newer lacks) (
            inl (
              record {
                log = frame.0;
                leads = λ h. ground (arith, frame.4, h);
                stands = λ h. ground (arith, frame.4, h);
              },
              refl,
            ))
      ]
]
