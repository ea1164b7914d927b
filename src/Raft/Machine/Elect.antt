-- ===== src/Raft/Machine/Elect.antt =====
-- The steps of an election keep the invariant.
use native.Mathlib.Numerals.{unary_clauses}
use mathlib.Core.List.{Memᴰ}
use dssd.Prelude.{
  ℕ, ◌+◌, ◌-◌, ◌≤◌, ◌<◌, ◌≡◌, ◌≢◌, refl, sym, ap, subst, ◌∙◌, ◌⊎◌, inl, inr, String, true, some,
  List, [], ◌∷◌, length, contains, get_elem?, get_last_or, Bool-cases, eq_refl, arith,
}
use dssd.Raft.State.{Raft, LogEntry, is_candidate, last_entry, sentinel}
use dssd.Raft.Log.{has_term-get_elem?}
use dssd.Raft.Vote.{RequestVoteArgs, handle_request_vote, start_election}
use dssd.Raft.Vote.Grants.{handle_request_vote_iff}
use dssd.Raft.Node.Terms.{Later, handle_request_vote-Later}
use dssd.Raft.Cluster.{System, put, stand, answer, campaigns, answers}
use dssd.Raft.Cluster.Roles.{Grants, handle_request_vote-Grants}
use dssd.Raft.Cluster.Invariant.{put-cases}
use dssd.Raft.Cluster.Ballots.{mark-more, mark-cases}
use dssd.Raft.Cluster.Stand.{start_election-lem}
use dssd.Raft.Cluster.Steps.{Step-Inv}
use dssd.Raft.Group.Effects.{Calm, handle_request_vote-Calm, start_election-Calm}
use dssd.Raft.Group.History.{History, Follows}
use dssd.Raft.Machine.{Machine}
use dssd.Raft.Machine.Order.{Has, Ordered, Follows-indexed}
use dssd.Raft.Machine.Kept.{Growth-refl, Lost, Lost-Growth, Acks, Voted}
use dssd.Raft.Machine.Ballot.{Ends, UpToDate-Has}
use dssd.Raft.Machine.Sound.{Asks, Dated, Sound}
use dssd.Raft.Machine.Moves.{Calm-Sound}

last-at :
    (l : List LogEntry) (d : LogEntry)
    → 0 < length l
    → get_elem? l (length l - 1) ≡ some (get_last_or l d)
last-at [] d pos = elim pos [ ]
last-at (x ∷ []) d pos = refl
last-at (x ∷ y ∷ l) d pos =
    simp unary_clauses (simp unary_clauses at (last-at (y ∷ l) x (omega arith)))

pub Dated-Ends : (G : History) (r : Raft) → Ordered G → Follows G r.log → Dated r → Ends r
Dated-Ends G r ord f d =
    let at = last-at r.log sentinel d.full in
    let index = Follows-indexed G ord r.log (length r.log - 1) (last_entry r) f at in
    record {
      full = d.full;
      index = omega (arith, index, d.full);
      term =
          subst (λ n. Has r.log n (last_entry r).term) (sym index)
            (has_term-get_elem? r.log (length r.log - 1) (last_entry r) at);
    }

answer-more :
    (s : System) (now : ℕ) (args : RequestVoteArgs) (w c : String) (t : ℕ) (x : String)
    → s.granted c t x ≡ true
    → (answer w now args s).granted c t x ≡ true
unfolding answer
answer-more s now args w c t x h =
    elim (Bool-cases (handle_request_vote now args (s.node w)).1.vote_granted) [
      | inl yes' ↦ rw yes' (mark-more s.granted args.candidate_id args.term w c t x h)
      | inr no' ↦ rw no' h
    ]

module _ {members : List String} (m : Machine) (G : History) (B : Acks)
    (v : Sound members m G B) where
  moved :
      (s' : System) (c c' : String) (u u' : ℕ) (w w' : String)
      → ((c ≡ c') × (u ≡ u') × (w ≡ w'))
      → Voted s' G B c u w
      → Voted s' G B c' u' w'
  moved s' c c' u u' w w' (ec, eu, ew) b =
      subst (λ x. Voted s' G B c' u' x) ew
        (subst (λ x. Voted s' G B c' x w) eu (subst (λ x. Voted s' G B x u w) ec b))

  own_ballot :
      (i : String) (now timeout : ℕ)
      → contains members i ≡ true
      → let r' = (start_election now timeout (m.sys.node i)).0 in
        Voted (stand i now timeout m.sys) G B i r'.current_term i
  unfolding stand start_election
  own_ballot i now timeout mem = record {
    past = rw (eq_refl i) (omega arith);
    backs = λ _ _ t n lt ack h. elim (v.keeps.kept i mem t n ack h) [
      | inl has ↦ inl (rw (eq_refl i) has)
      | inr l ↦ inr (Lost-Growth G G t n _ _ (Growth-refl G) (omega arith) l)
    ];
  }

  pub stand_calmly :
      (i : String) (now timeout : ℕ)
      → contains members i ≡ true
      → Sound members (record m { sys = stand i now timeout m.sys }) G B
  unfolding stand
  stand_calmly i now timeout mem =
      Calm-Sound i (start_election now timeout (m.sys.node i)).0 mem v _ _ _
        (Step-Inv (campaigns i now timeout mem) v.inv)
        (start_election-lem now timeout (m.sys.node i)).0
        (start_election-Calm now timeout (m.sys.node i)) (mark-more m.sys.granted i _ i)
        (λ c u w g. elim (mark-cases m.sys.granted i c _ u i w g) [
          | inr old ↦ inl old
          | inl same ↦
              inr
                (moved (stand i now timeout m.sys) i c _ u i w same (own_ballot i now timeout mem))
        ])

  -- The ballot that a voter grants.
  given_ballot :
      (w : String) (now : ℕ) (args : RequestVoteArgs)
      → contains members w ≡ true
      → Asks members m.sys args
      → (handle_request_vote now args (m.sys.node w)).1.vote_granted ≡ true
      → Voted (answer w now args m.sys) G B args.candidate_id args.term w
  unfolding answer
  given_ballot w now args mem a yes' = record {
    past =
        put-cases (λ r. args.term ≤ r.current_term) m.sys.node w args.candidate_id r'
          (λ same. omega (arith, a.past, later.term, ap (λ x. (m.sys.node x).current_term) same))
          a.past;
    backs = λ stands now' t n lt ack h.
        let (before, e, log) = stood stands now' in rw log (backed before e t n lt ack h);
  }
    where
      r' : Raft
      r' = (handle_request_vote now args (m.sys.node w)).0

      later : Later (m.sys.node w) r'
      later = handle_request_vote-Later now args (m.sys.node w)

      calm : Calm (m.sys.node w) r'
      calm = handle_request_vote-Calm now args (m.sys.node w)

      grants : Grants args (m.sys.node w) r'
      grants = handle_request_vote-Grants now args (m.sys.node w) yes'

      -- The candidate is as it was before the answer, also where it is the voter itself.
      stood :
          is_candidate (put m.sys.node w r' args.candidate_id).role ≡ true
          → args.term ≡ (put m.sys.node w r' args.candidate_id).current_term
          → (is_candidate (m.sys.node args.candidate_id).role ≡ true)
            × (args.term ≡ (m.sys.node args.candidate_id).current_term)
            × ((put m.sys.node w r' args.candidate_id).log ≡ (m.sys.node args.candidate_id).log)
      stood =
          put-cases
            (λ r.
              is_candidate r.role ≡ true
              → args.term ≡ r.current_term
              → (is_candidate (m.sys.node args.candidate_id).role ≡ true)
                × (args.term ≡ (m.sys.node args.candidate_id).current_term)
                × (r.log ≡ (m.sys.node args.candidate_id).log))
            m.sys.node w args.candidate_id r'
            (λ same c e. elim (calm.stands c) [
              | inl (before, kept) ↦
                  subst
                    (λ x.
                      (is_candidate (m.sys.node x).role ≡ true)
                      × (args.term ≡ (m.sys.node x).current_term)
                      × (r'.log ≡ (m.sys.node x).log))
                    same (before, e ∙ kept, calm.log)
              | inr newer ↦
                  absurd (omega (arith, a.past, ap (λ x. (m.sys.node x).current_term) same))
            ])
            (λ c e. (c, e, refl))

      -- What the voter has acknowledged, the candidate has.
      backed :
          is_candidate (m.sys.node args.candidate_id).role ≡ true
          → args.term ≡ (m.sys.node args.candidate_id).current_term
          → (t n : ℕ) → t < args.term
          → n < B w t
          → Has (G t) n t
          → Has (m.sys.node args.candidate_id).log n t ⊎ Lost G t n (args.term + 1)
      backed stands e t n lt ack h =
          let theirs = (m.sys.node args.candidate_id).log in
          let claimed = a.honest stands e in
          let (may, fresh) = (handle_request_vote_iff now args (m.sys.node w)).0 yes' in
          elim (v.keeps.kept w mem t n ack h) [
            | inl has ↦
                UpToDate-Has G v.ord (m.sys.node w).log theirs (v.logged.follow w mem)
                  (v.logged.follow args.candidate_id a.member) (m.sys.node w) args n t args.term
                  refl (Dated-Ends G (m.sys.node w) v.ord (v.logged.follow w mem) (v.dated w mem))
                  fresh claimed
                  (omega (
                    arith,
                    e,
                    (v.dated args.candidate_id a.member).below args.last_log_index
                        args.last_log_term claimed,
                  ))
                  has
            | inr l ↦
                inr (
                  Lost-Growth G G t n _ _ (Growth-refl G) (omega (arith, later.term, grants.term))
                    l)
          ]

  pub answer_calmly :
      (w : String) (now : ℕ) (args : RequestVoteArgs)
      → contains members w ≡ true
      → args.candidate_id ≢ ""
      → Memᴰ args m.asked
      → Sound members (record m { sys = answer w now args m.sys }) G B
  unfolding answer
  answer_calmly w now args mem named asked =
      Calm-Sound w (handle_request_vote now args (m.sys.node w)).0 mem v _ _ _
        (Step-Inv (answers w now args mem named) v.inv)
        (handle_request_vote-Later now args (m.sys.node w))
        (handle_request_vote-Calm now args (m.sys.node w)) (answer-more m.sys now args w)
        (λ c u x g. ballots c u x g)
    where
      ballots :
          (c : String) (u : ℕ) (x : String)
          → (answer w now args m.sys).granted c u x ≡ true
          → (m.sys.granted c u x ≡ true) ⊎ Voted (answer w now args m.sys) G B c u x
      ballots c u x g =
          elim (Bool-cases (handle_request_vote now args (m.sys.node w)).1.vote_granted) [
            | inl yes' ↦
                elim (mark-cases m.sys.granted args.candidate_id c args.term u w x (rw yes' at g)) [
                  | inr old ↦ inl old
                  | inl same ↦ inr (
                      moved (answer w now args m.sys) args.candidate_id c args.term u w x same
                        (given_ballot w now args mem (v.asks args asked) yes'))
                ]
            | inr no' ↦ inl (rw no' at g)
          ]
