-- ===== src/Raft/Machine/Follow.antt =====
-- The change of a follower that takes a request's entries over.
use native.Mathlib.Decide.{dec_lt}
use dssd.Prelude.{
  ℕ, ◌+◌, ◌≤◌, ◌<◌, ◌≡◌, sym, ap, subst, ◌⊎◌, inl, inr, String, true, false, List, length, contains,
  Bool-cases, ◌==◌, eq_refl, arith,
}
use dssd.Raft.State.{Raft}
use dssd.Raft.Append.{AppendEntriesArgs}
use dssd.Raft.Cluster.{System, put}
use dssd.Raft.Group.Effects.{Accepts}
use dssd.Raft.Group.History.{History, Follows}
use dssd.Raft.Machine.Order.{Has, Ordered}
use dssd.Raft.Machine.Kept.{Growth-refl, Lost, Lost-Growth, Acks, Keeps, Change}
use dssd.Raft.Machine.Changes.{acked, acked-miss, acked-cases}
use dssd.Raft.Machine.Accept.{end_of, Placed, accept-Has, accept-more, accept-older}

module _ {members : List String} {s : System} {G : History} {B : Acks} (i : String) (r' : Raft)
    (args : AppendEntriesArgs) (m : ℕ) (mem : contains members i ≡ true) (k : Keeps members s G B)
    (ord : Ordered G) (f : Follows G (s.node i).log) (made : Follows G (G args.term))
    (p : Placed G args) (a : Accepts args (s.node i) r') (more : B i args.term ≤ m)
    (all : end_of args ≤ m) (one : (m ≡ B i args.term) ⊎ (m ≡ end_of args)) where
  -- The follower had acknowledged more of this term before.
  had :
      (n : ℕ)
      → end_of args ≤ n
      → n < B i args.term
      → Has (G args.term) n args.term
      → Has r'.log n args.term
  had n le lt h = elim (k.kept i mem args.term n lt h) [
    | inl there ↦ rw (a.log, accept-more G ord (s.node i).log args f made p a.has n le there) there
    | inr l ↦ absurd (omega (arith, l.after, l.before, a.newer))
  ]

  same_term : (n : ℕ) → n < m → Has (G args.term) n args.term → Has r'.log n args.term
  same_term n lt h = elim (dec_lt n (end_of args)) [
    | yes before ↦
        rw a.log (accept-Has G ord (s.node i).log args f made p a.has n args.term before h)
    | no behind ↦ elim one [
      | inl old ↦ had n (omega arith) (omega arith) h
      | inr new ↦ absurd (omega arith)
    ]
  ]

  other_term :
      (t n : ℕ)
      → (t == args.term) ≡ false
      → n < B i t
      → Has (G t) n t
      → Has r'.log n t ⊎ Lost G t n (r'.current_term + 1)
  other_term t n miss lt h = elim (k.kept i mem t n lt h) [
    | inr l ↦ inr (Lost-Growth G G t n _ _ (Growth-refl G) (omega (arith, a.term, a.newer)) l)
    | inl there ↦
        rw (a.log, a.term)
          (accept-older G ord (s.node i).log args f made p a.has n t
            (ground (arith, miss, k.past i t (omega arith), a.newer)) there)
  ]

  pub accept-Change :
      (s' : System)
      → ((j : String) → s'.node j ≡ put s.node i r' j)
      → ((c : String) (u : ℕ) (v : String) → s'.granted c u v ≡ true → s.granted c u v ≡ true)
      → Change members s s' G G B (acked B i args.term m) i r'
  accept-Change s' node ballots = record {
    node = node;
    grown = Growth-refl G;
    term = omega (arith, a.term, a.newer);
    acks = λ v u. elim (acked-cases B i args.term m v u) [
      | inl (same, now, _) ↦
          inr (omega (arith, now, a.newer, ap (λ x. (s.node x).current_term) same))
      | inr kept ↦ inl kept
    ];
    others = λ v u miss. acked-miss B i args.term m v u (ground (arith, miss));
    inside = λ v u. elim (acked-cases B i args.term m v u) [
      | inl (same, now, e) ↦ omega (arith, e, ap (λ x. length (G x)) now, one_inside)
      | inr kept ↦ omega (arith, kept, k.inside v u)
    ];
    past = λ u pos. elim (acked-cases B i args.term m i u) [
      | inl (same, now, e) ↦ omega (arith, now, a.term)
      | inr kept ↦ omega (arith, k.past i u (omega (arith, kept)), a.term, a.newer)
    ];
    kept = λ u n lt h. elim (Bool-cases (u == args.term)) [
      | inl hit ↦
          let now : u ≡ args.term = ground arith in
          inl (
            subst (λ x. n < m → Has (G x) n x → Has r'.log n x) (sym now) (same_term n)
              (omega (arith, lt, hit_value u hit)) h)
      | inr miss ↦
          other_term u n miss
            (omega (arith, lt, acked-miss B i args.term m i u (ground (arith, miss)))) h
    ];
    stands = λ c. ground (arith, c, a.not_candidate);
    ballots = λ c u v g. inl (ballots c u v g);
    newborn = λ u pos none_yet begun. absurd (omega arith);
  }
    where
      one_inside : m ≤ length (G args.term)
      one_inside = elim one [
        | inl old ↦ omega (arith, k.inside i args.term)
        | inr new ↦ omega (arith, p.inside)
      ]

      hit_value : (u : ℕ) → (u == args.term) ≡ true → acked B i args.term m i u ≡ m
      hit_value u hit = ground (arith, eq_refl i, hit)
