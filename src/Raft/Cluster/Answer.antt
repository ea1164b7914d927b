-- ===== src/Raft/Cluster/Answer.antt =====
-- A member that answers a vote request keeps the invariant.
use native.Mathlib.Nat.{le_trans}
use dssd.Prelude.{
  ℕ, ◌≡◌, ◌≢◌, sym, ◌∙◌, inl, inr, String, true, List, count_mono, Bool-cases, arith,
}
use dssd.Raft.State.{Raft}
use dssd.Raft.Vote.{RequestVoteArgs, handle_request_vote}
use dssd.Raft.Node.Terms.{Later, handle_request_vote-Later}
use dssd.Raft.Cluster.{mark, System, put, answer}
use dssd.Raft.Cluster.Roles.{
  NoNewLeader, handle_request_vote-NoNewLeader, handle_request_vote-Grants, Grants,
}
use dssd.Raft.Cluster.Invariant.{Cast, Inv, put-IsMember, put-Cast, put-Elected}
use dssd.Raft.Cluster.Ballots.{mark-more, mark-single, mark-Cast}

-- A voter that grants a vote has cast none for another candidate in that term.
answer-only :
    (members : List String) (s : System) (w : String) (now : ℕ) (args : RequestVoteArgs)
    → Inv members s
    → (handle_request_vote now args (s.node w)).1.vote_granted ≡ true
    → (c' : String) → s.granted c' args.term w ≡ true
    → args.candidate_id ≡ c'
answer-only members s w now args v granted c' g =
    let k : Cast c' args.term (s.node w) = v.cast c' args.term w g in
    let grants : Grants args (s.node w) (handle_request_vote now args (s.node w)).0 =
      handle_request_vote-Grants now args (s.node w) granted in
    let later = handle_request_vote-Later now args (s.node w) in
    let now' : args.term ≡ (s.node w).current_term = omega (arith, k.past, grants.newer) in
    sym grants.vote
    ∙ later.vote (sym now' ∙ sym grants.term) (λ f. k.someone (sym (k.held now') ∙ f))
    ∙ k.held now'

pub answer-Inv :
    (members : List String) (s : System) (w : String) (now : ℕ) (args : RequestVoteArgs)
    → args.candidate_id ≢ ""
    → Inv members s
    → Inv members (answer w now args s)
unfolding answer
answer-Inv members s w now args named v =
    elim (Bool-cases (handle_request_vote now args (s.node w)).1.vote_granted) [
      | inl granted ↦ rw granted (granted-Inv granted)
      | inr refused ↦ rw refused (record {
        member = put-IsMember members s w r' later' v;
        cast = put-Cast members s w r' later' v;
        single = v.single;
        tally = v.tally;
        leads = put-Elected members s w r' later' v s.granted (λ c t x g. g) none_new;
      })
    ]
  where
    r' : Raft
    r' = (handle_request_vote now args (s.node w)).0

    later' : Later (s.node w) r'
    later' = handle_request_vote-Later now args (s.node w)

    none_new : NoNewLeader (s.node w) r'
    none_new = handle_request_vote-NoNewLeader now args (s.node w)

    granted-Inv :
        (handle_request_vote now args (s.node w)).1.vote_granted ≡ true
        → Inv members (record s {
          node = put s.node w r';
          granted = mark s.granted args.candidate_id args.term w;
        })
    granted-Inv granted = record {
      member = put-IsMember members s w r' later' v;
      cast = mark-Cast members s args.candidate_id args.term w r' later' v ballot;
      single =
          mark-single members s args.candidate_id args.term w v
            (answer-only members s w now args v granted);
      tally = λ c t.
          le_trans (v.tally c t) (count_mono _ _ members (λ x h. ground (arith, more c t x)));
      leads =
          put-Elected members s w r' later' v (mark s.granted args.candidate_id args.term w) more
            none_new;
    }
      where
        grants : Grants args (s.node w) r'
        grants = handle_request_vote-Grants now args (s.node w) granted

        ballot : Cast args.candidate_id args.term r'
        ballot = record {
          past = omega (arith, grants.term);
          held = λ _. grants.vote;
          someone = named;
        }

        more :
            (c : String) (t : ℕ) (x : String)
            → s.granted c t x ≡ true
            → mark s.granted args.candidate_id args.term w c t x ≡ true
        more c t x = mark-more s.granted args.candidate_id args.term w c t x
