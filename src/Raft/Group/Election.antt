-- ===== src/Raft/Group/Election.antt =====
-- The steps of an election, and what they do to the history.
use dssd.Prelude.{
  ℕ, ◌+◌, ◌/◌, ◌≤◌, ◌≡◌, refl, sym, ap, subst, ◌∙◌, inl, inr, String, true, false, List, [], some,
  length, contains, count, Bool-cases, eq_refl, arith,
}
use dssd.Raft.State.{Raft, is_candidate}
use dssd.Raft.Vote.{RequestVoteArgs, RequestVoteReply, handle_request_vote, start_election}
use dssd.Raft.Node.Terms.{handle_request_vote-Later, ask-Later}
use dssd.Raft.Cluster.{put, stand, answer, hear}
use dssd.Raft.Cluster.Invariant.{Inv}
use dssd.Raft.Cluster.Ballots.{mark-more}
use dssd.Raft.Cluster.Stand.{start_election-lem}
use dssd.Raft.Group.{Group}
use dssd.Raft.Group.Effects.{handle_request_vote-Calm, start_election-Calm, made, ask-cases}
use dssd.Raft.Group.History.{History}
use dssd.Raft.Group.Invariant.{Logged, rest-Logged}
use dssd.Raft.Group.Lead.{one_elected, make-Logged}
use dssd.Raft.Group.Moves.{HasHistory, move-Rests}

pub put-same : (f : String → Raft) (c : String) (r : Raft) → put f c r c ≡ r
put-same f c r = rw (eq_refl c) refl

module _ {members : List String} (g : Group) (G : History) (inv : Inv members g.sys)
    (v : Logged members g G) where
  pub stand-Logged :
      (i : String) (now timeout : ℕ)
      → contains members i ≡ true
      → HasHistory members (record g { sys = stand i now timeout g.sys })
  unfolding stand
  stand-Logged i now timeout mem = (
    G,
    rest-Logged members g G i (start_election now timeout (g.sys.node i)).0 _ _ _
        (mark-more g.sys.granted i _ i) v
        (move-Rests g G inv v i _ mem (start_election-lem now timeout (g.sys.node i)).0
          (start_election-Calm now timeout (g.sys.node i))),
  )

  -- An answer takes no ballot back.
  answer-more :
      (now : ℕ) (args : RequestVoteArgs) (w c : String) (t : ℕ) (x : String)
      → g.sys.granted c t x ≡ true
      → (answer w now args g.sys).granted c t x ≡ true
  unfolding answer
  answer-more now args w c t x h =
      elim (Bool-cases (handle_request_vote now args (g.sys.node w)).1.vote_granted) [
        | inl yes' ↦ rw yes' (mark-more g.sys.granted args.candidate_id args.term w c t x h)
        | inr no' ↦ rw no' h
      ]

  pub answer-Logged :
      (w : String) (now : ℕ) (args : RequestVoteArgs)
      → contains members w ≡ true
      → HasHistory members (record g { sys = answer w now args g.sys })
  unfolding answer
  answer-Logged w now args mem = (
    G,
    rest-Logged members g G w (handle_request_vote now args (g.sys.node w)).0 _ _ _
        (answer-more now args w) v
        (move-Rests g G inv v w _ mem (handle_request_vote-Later now args (g.sys.node w))
          (handle_request_vote-Calm now args (g.sys.node w))),
  )

  -- A candidate of a term that a majority has granted it is the first to lead it.
  pub not_born :
      (c : String)
      → contains members c ≡ true
      → is_candidate (g.sys.node c).role ≡ true
      → length members / 2 + 1 ≤ count (g.sys.granted c (g.sys.node c).current_term) members
      → G (g.sys.node c).current_term ≡ []
  not_born c mem stood enough = elim (v.born (g.sys.node c).current_term (v.stood c mem stood)) [
    | inl none_yet ↦ none_yet
    | inr d ↦
        let e : d.c ≡ c = one_elected d.c c (g.sys.node c).current_term inv d.majority enough in
        let stopped : is_candidate (g.sys.node c).role ≡ false =
          subst (λ j. is_candidate (g.sys.node j).role ≡ false) e
            (d.stands_not (ap (λ j. (g.sys.node j).current_term) (sym e))) in
        absurd (ground (arith, stood, stopped))
  ]

  -- A candidate hears a reply, and may become the leader.
  pub hear-Logged :
      (c : String) (t : ℕ) (p : String) (now : ℕ) (reply : RequestVoteReply)
      → contains members c ≡ true
      → Inv members (hear c t p now reply g.sys)
      → HasHistory members (record g { sys = hear c t p now reply g.sys })
  unfolding hear
  hear-Logged c t p now reply mem after =
      elim (ask-cases now reply (g.sys.node c) (record { term = t; votes = g.sys.votes c t })) [
        | inl (calm, _) ↦ (
          G,
          rest-Logged members g G c _ _ _ _ (λ c t w h. h) v
              (move-Rests g G inv v c _ mem (ask-Later now (some reply) (g.sys.node c) _) calm),
        )
        | inr (becomes, _, _) ↦
            let enough =
              subst (λ u. length members / 2 + 1 ≤ count (g.sys.granted c u) members)
                (ap (λ (r : Raft). r.current_term) (put-same g.sys.node c _) ∙ becomes.term)
                (after.leads c mem (rw (eq_refl c) becomes.leads)) in
            (
              _,
              make-Logged members g G c _ (made (g.sys.node c) []) _ _ mem enough
                  (inr (not_born c mem becomes.stood enough))
                  (record {
                    log = becomes.log;
                    of_term = refl;
                    term = becomes.term;
                    leads = becomes.leads;
                  })
                  inv v,
            )
      ]
