-- ===== src/Raft/Cluster/Hear.antt =====
-- A reply that reaches a candidate keeps the invariant.
use native.Mathlib.Nat.{le_trans}
use dssd.Prelude.{
  ℕ, ◌+◌, ◌/◌, ◌≤◌, ◌≡◌, inl, inr, subst, String, true, false, List, length, eq_refl, contains,
  count, count_mono, count_grow, some, arith,
}
use dssd.Raft.State.{Raft, is_leader}
use dssd.Raft.Vote.{RequestVoteReply, Election, ask}
use dssd.Raft.Node.Terms.{Later, ask-Later}
use dssd.Raft.Cluster.{System, hear}
use dssd.Raft.Cluster.Roles.{Counts, ask-Counts}
use dssd.Raft.Cluster.Invariant.{
  tallied, Inv, put-IsMember, put-Cast, put-cases, majority-eq, Elected,
}
use dssd.Raft.Cluster.Stand.{put_votes-le}

module _ (members : List String) (s : System) (c : String) (t : ℕ) (p : String) (now : ℕ)
    (reply : RequestVoteReply) (mem : contains members c ≡ true)
    (peer : contains (s.node c).cfg.peers p ≡ true) (first : s.counted c t p ≡ false)
    (sent : reply.vote_granted ≡ true → s.granted c t p ≡ true) (v : Inv members s) where
  e : Election
  e = record { term = t; votes = s.votes c t }

  out : Raft × Election
  out = ask now (some reply) (s.node c, e)

  s' : System
  s' = hear c t p now reply s

  counts : Counts (s.node c) e reply out
  unfolding e out
  counts = ask-Counts now reply (s.node c) e

  out-Later : Later (s.node c) out.0
  unfolding e out
  out-Later = ask-Later now (some reply) (s.node c) e

  -- No ballot is lost, and the peer's is new if it was granted.
  tallied-grow :
      (c' : String) (t' : ℕ) (x : String) → tallied s c' t' x ≡ true → tallied s' c' t' x ≡ true
  unfolding s' hear
  tallied-grow c' t' x h = ground arith

  tallied-new : reply.vote_granted ≡ true → tallied s' c t p ≡ true
  unfolding s' hear
  tallied-new g = simp (sent g, eq_refl) (ground arith)

  member : contains members p ≡ true
  member = (v.member c mem).peers p peer

  counted_votes : out.1.votes ≤ count (tallied s' c t) members
  unfolding e
  counted_votes = elim counts.votes [
    | inl same ↦ omega (arith, same, v.tally c t, count_mono _ _ members (tallied-grow c t))
    | inr (more, granted) ↦ omega (
      arith,
      more,
      v.tally c t,
      count_grow (tallied s c t) (tallied s' c t) members p member (tallied-grow c t)
          (simp first (ground arith)) (tallied-new granted),
    )
  ]

  tallied-granted : (x : String) → tallied s' c t x ≡ true → s.granted c t x ≡ true
  unfolding s' hear
  tallied-granted x h = ground arith

  -- The candidate leads a term that it led before, or a majority has granted it this one.
  elected :
      is_leader out.0.role ≡ true
      → length members / 2 + 1 ≤ count (s.granted c out.0.current_term) members
  unfolding e
  elected l = elim (counts.leads l) [
    | inl (led, same) ↦ rw same (v.leads c mem led)
    | inr (term, enough) ↦ rw term (
        omega (
          arith,
          enough,
          majority-eq members c (s.node c) (v.member c mem),
          counted_votes,
          count_mono (tallied s' c t) (s.granted c t) members tallied-granted,
        ))
  ]

  pub hear-Inv : Inv members (hear c t p now reply s)
  unfolding s' hear out e
  hear-Inv = record {
    member = put-IsMember members s c out.0 out-Later v;
    cast = put-Cast members s c out.0 out-Later v;
    single = v.single;
    tally =
        put_votes-le s.votes (λ c' t'. count (tallied s' c' t') members) c t out.1.votes
          (λ c' t'. le_trans (v.tally c' t') (count_mono _ _ members (tallied-grow c' t')))
          counted_votes;
    leads = λ j h.
        put-cases (Elected members s c out.0 out-Later v s.granted j) s.node c j out.0
          (λ same.
            subst (λ k. Elected members s c out.0 out-Later v s.granted k out.0) same elected)
          (v.leads j h);
  }
