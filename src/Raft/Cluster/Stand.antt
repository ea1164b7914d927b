-- ===== src/Raft/Cluster/Stand.antt =====
-- A member that starts an election keeps the invariant.
use native.Mathlib.Nat.{le_trans}
use mathlib.Core.Path.{subst₂}
use dssd.Prelude.{
  ℕ, ◌+◌, ◌≤◌, ◌≡◌, refl, ◌∙◌, inl, inr, String, true, false, ◌&&◌, List, ◌==◌, str_eq, str_eq→eq,
  eq_refl, contains, count, count_mono, count_grow, Bool-cases, arith,
}
use dssd.Raft.State.{Raft}
use dssd.Raft.Vote.{Election, start_election}
use dssd.Raft.Node.Terms.{Later}
use dssd.Raft.Cluster.{System, put_votes, stand}
use dssd.Raft.Cluster.Roles.{NoNewLeader}
use dssd.Raft.Cluster.Invariant.{tallied, Cast, Inv, put-IsMember, put-Elected}
use dssd.Raft.Cluster.Ballots.{mark-more, mark-single, mark-Cast}

-- The candidate's new state, in terms of the old one.
pub start_election-lem :
    (now timeout : ℕ) (r : Raft)
    → let r' = (start_election now timeout r).0 in
      Later r r'
      × NoNewLeader r r'
      × (r'.current_term ≡ r.current_term + 1)
      × (r'.voted_for ≡ r.cfg.id)
unfolding start_election
start_election-lem now timeout r = (
  record { cfg = refl; term = omega arith; vote = λ e. absurd (omega arith) },
  λ h. cc,
  refl,
  refl,
)

start_election-votes : (now timeout : ℕ) (r : Raft) → (start_election now timeout r).2.votes ≡ 1
unfolding start_election
start_election-votes now timeout r = refl

pub put_votes-le :
    (f : String → ℕ → ℕ) (bound : String → ℕ → ℕ) (c : String) (t n : ℕ)
    → ((c' : String) (t' : ℕ) → f c' t' ≤ bound c' t')
    → n ≤ bound c t
    → (c' : String) (t' : ℕ) → put_votes f c t n c' t' ≤ bound c' t'
put_votes-le f bound c t n old new c' t' = elim (Bool-cases (str_eq c c' && t == t')) [
  | inl hit ↦
      rw hit (subst₂ (λ a b. n ≤ bound a b) (str_eq→eq c c' (ground arith)) (ground arith) new)
  | inr miss ↦ rw miss (old c' t')
]

pub stand-Inv :
    (members : List String) (s : System) (i : String) (now timeout : ℕ)
    → contains members i ≡ true
    → Inv members s
    → Inv members (stand i now timeout s)
unfolding stand
stand-Inv members s i now timeout mem v = record {
  member = put-IsMember members s i r' facts.0 v;
  cast = mark-Cast members s i t i r' facts.0 v ballot;
  single =
      mark-single members s i t i v
        (λ c' g. absurd (omega (arith, (v.cast c' t i g).past, facts.2)));
  tally =
      put_votes-le s.votes (λ c' t'. count (tallied s' c' t') members) i t e.votes
        (λ c' t'.
          le_trans (v.tally c' t') (count_mono _ _ members (λ x h. ground (arith, both c' t' x))))
        (omega (arith, start_election-votes now timeout (s.node i), own));
  leads = put-Elected members s i r' facts.0 v s'.granted (mark-more s.granted i t i) facts.1;
}
  where
    r' : Raft
    r' = (start_election now timeout (s.node i)).0

    e : Election
    e = (start_election now timeout (s.node i)).2

    t : ℕ
    t = r'.current_term

    s' : System
    s' = stand i now timeout s

    facts :
        Later (s.node i) r'
        × NoNewLeader (s.node i) r'
        × (t ≡ (s.node i).current_term + 1)
        × (r'.voted_for ≡ (s.node i).cfg.id)
    facts = start_election-lem now timeout (s.node i)

    ballot : Cast i t r'
    ballot = record {
      past = omega arith;
      held = λ _. facts.3 ∙ (v.member i mem).id;
      someone = (v.member i mem).named;
    }

    both : (c : String) (t' : ℕ) (x : String) → tallied s c t' x ≡ true → tallied s' c t' x ≡ true
    both c t' x h = ground arith

    own : 1 ≤ count (tallied s' i t) members
    own = omega (
      arith,
      count_grow (λ _. false) (tallied s' i t) members i mem (λ x h. cc) refl
          (simp eq_refl (ground arith)),
    )
