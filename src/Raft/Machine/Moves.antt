-- ===== src/Raft/Machine/Moves.antt =====
-- The invariant after a quiet change, after a new entry, and after a request's entries.
use dssd.Prelude.{
  ℕ, ◌+◌, ◌/◌, ◌≤◌, ◌≡◌, refl, sym, ap, subst, ◌⊎◌, inl, inr, String, true, false, List, [], ◌∷◌,
  ◌++◌, length, length-append, count, contains, Bool-cases, str_eq, eq_iff, ◌==◌, arith,
}
use dssd.Raft.State.{Raft, LogEntry, is_leader}
use dssd.Raft.Append.{AppendEntriesArgs}
use dssd.Raft.Node.Terms.{Later}
use dssd.Raft.Cluster.{Ballots, System, put}
use dssd.Raft.Cluster.Invariant.{Inv}
use dssd.Raft.Group.Effects.{Calm, Accepts}
use dssd.Raft.Group.History.{History, Follows, Grows, Quotes, append_loop-Follows}
use dssd.Raft.Group.Invariant.{rest-Logged}
use dssd.Raft.Group.Lead.{
  append_nil, with_log, with_log-Grows, with_log-hit, with_log-miss, eq_of_test, one_elected, Makes,
  make-Logged,
}
use dssd.Raft.Group.Moves.{move-Rests}
use dssd.Raft.Machine.{Machine}
use dssd.Raft.Machine.Order.{Has, Has-snoc, Has-le, Ordered-make}
use dssd.Raft.Machine.Kept.{Growth-refl, Growth-make, Acks, Voted, Quorum}
use dssd.Raft.Machine.Changes.{acked, acked-hit, acked-cases, Calm-Change, make-Change}
use dssd.Raft.Machine.Accept.{end_of, Placed, accept-from, accept-full}
use dssd.Raft.Machine.Follow.{accept-Change}
use dssd.Raft.Machine.Sound.{Dated, group_of, Moved, Sound, change-Sound}

Grows-refl : (G : History) → Grows G G
Grows-refl G = record { more = λ t. ([], sym (append_nil (G t))) }

pub Moved-refl : (G : History) (B : Acks) → Moved G B G B
Moved-refl G B = record { growth = Growth-refl G; grows = Grows-refl G; more = λ w t. omega arith }

Dated-Calm : (r r' : Raft) → r.current_term ≤ r'.current_term → Calm r r' → Dated r → Dated r'
Dated-Calm r r' term calm d = record {
  below = λ n a h. omega (arith, term, d.below n a (subst (λ l. Has l n a) calm.log h));
  full = rw calm.log d.full;
}

Dated-make : (r r' : Raft) (e : LogEntry) → Makes r r' e → Dated r → Dated r'
Dated-make r r' e makes d = record {
  below = λ n a h. elim (Has-snoc r.log e n a (subst (λ l. Has l n a) makes.log h)) [
    | inl old ↦ omega (arith, makes.term, d.below n a old)
    | inr (_, new) ↦ omega (arith, makes.term, makes.of_term)
  ];
  full = rw makes.log (omega (arith, length-append r.log (e ∷ [])));
}

module _ {members : List String} {m : Machine} {G : History} {B : Acks} (i : String) (r' : Raft)
    (mem : contains members i ≡ true) (v : Sound members m G B) where
  pub Calm-Sound :
      (votes : String → ℕ → ℕ) (granted counted : Ballots)
      → let s' : System = record {
        node = put m.sys.node i r';
        votes = votes;
        granted = granted;
        counted = counted;
      } in
        Inv members s'
        → Later (m.sys.node i) r'
        → Calm (m.sys.node i) r'
        → ((c : String) (t : ℕ) (w : String) → m.sys.granted c t w ≡ true → granted c t w ≡ true)
        → ((c : String) (u : ℕ) (w : String)
            → granted c u w ≡ true
            → (m.sys.granted c u w ≡ true) ⊎ Voted s' G B c u w)
        → Sound members (record m { sys = s' }) G B
  Calm-Sound votes granted counted inv' later calm more ballots =
      change-Sound _ i r' (Calm-Change i r' (λ j. refl) mem v.keeps later.term calm ballots) v inv'
        (rest-Logged members (group_of m) G i r' votes granted counted more v.logged
          (move-Rests (group_of m) G v.inv v.logged i r' mem later calm))
        v.ord (Grows-refl G) (λ w t. omega arith)
        (λ mem'. Dated-Calm (m.sys.node i) r' later.term calm (v.dated i mem'))
        (λ l.
          let (led, same) = calm.leads l in
          subst (λ t. B i t ≡ length (G t)) (sym same) (v.leads i mem led))
        (λ j _ _ _. refl)

  pub make-Moved :
      (e : LogEntry)
      → e.term ≡ (m.sys.node i).current_term
      → (G (m.sys.node i).current_term ≡ (m.sys.node i).log) ⊎ (G (m.sys.node i).current_term ≡ [])
      → let t = (m.sys.node i).current_term in
        Moved G B
          (with_log G t ((m.sys.node i).log ++ e ∷ []))
          (acked B i t (length (m.sys.node i).log + 1))
  make-Moved e of_term old = record {
    growth = Growth-make G (m.sys.node i).current_term (m.sys.node i).log e of_term old;
    grows = with_log-Grows G (m.sys.node i).current_term (m.sys.node i).log e old;
    more = more;
  }
    where
      bound : B i (m.sys.node i).current_term ≤ length (m.sys.node i).log
      bound = elim old [
        | inl whole ↦ omega (arith, v.keeps.inside i (m.sys.node i).current_term, ap length whole)
        | inr none_yet ↦
            omega (arith, v.keeps.inside i (m.sys.node i).current_term, ap length none_yet)
      ]

      more :
          (w : String) (t : ℕ)
          → B w t ≤ acked B i (m.sys.node i).current_term (length (m.sys.node i).log + 1) w t
      more w t =
          elim (acked-cases B i (m.sys.node i).current_term (length (m.sys.node i).log + 1) w t) [
            | inl (same, now, e) ↦ omega (arith, bound, e, ap (λ x. B x t) same, ap (B i) now)
            | inr kept ↦ omega (arith, kept)
          ]

  pub make-Sound :
      (e : LogEntry) (votes : String → ℕ → ℕ) (counted : Ballots)
      → let t = (m.sys.node i).current_term in
        let log = (m.sys.node i).log in
        let s' : System = record {
          node = put m.sys.node i r';
          votes = votes;
          granted = m.sys.granted;
          counted = counted;
        } in
        let G' = with_log G t (log ++ e ∷ []) in
        let B' = acked B i t (length log + 1) in
        Inv members s'
        → Makes (m.sys.node i) r' e
        → e.index ≡ length log
        → length members / 2 + 1 ≤ count (m.sys.granted i t) members
        → (G t ≡ log) ⊎ (G t ≡ [])
        → (length (G t) ≡ 0 → Quorum members s' G' B' t)
        → Sound members (record m { sys = s' }) G' B'
  make-Sound e votes counted inv' makes index enough old born =
      change-Sound _ i r' (make-Change i r' (λ j. refl) mem v.keeps e makes old (λ c u w g. g) born)
        v inv'
        (make-Logged members (group_of m) G i r' e votes counted mem enough old makes v.inv
          v.logged)
        (Ordered-make G v.ord (m.sys.node i).current_term (m.sys.node i).log e
          (v.logged.follow i mem) (v.dated i mem).below makes.of_term index)
        (make-Moved e makes.of_term old).grows (make-Moved e makes.of_term old).more
        (λ mem'. Dated-make (m.sys.node i) r' e makes (v.dated i mem'))
        (λ _. rw makes.term (
          omega (
            arith,
            acked-hit B i (m.sys.node i).current_term (length (m.sys.node i).log + 1),
            ap length (with_log-hit G (m.sys.node i).current_term ((m.sys.node i).log ++ e ∷ [])),
            length-append (m.sys.node i).log (e ∷ []),
          )))
        apart
    where
      -- Another leader has another term.
      apart :
          (j : String)
          → contains members j ≡ true
          → str_eq i j ≡ false
          → is_leader (m.sys.node j).role ≡ true
          → length (
              with_log G
                (m.sys.node i).current_term
                ((m.sys.node i).log ++ e ∷ [])
                (m.sys.node j).current_term)
            ≡ length (G (m.sys.node j).current_term)
      apart j mem_j miss l =
          elim (Bool-cases ((m.sys.node j).current_term == (m.sys.node i).current_term)) [
            | inr other ↦
                ap length
                  (with_log-miss G (m.sys.node i).current_term (m.sys.node j).current_term _ other)
            | inl now ↦
                let same = eq_of_test (m.sys.node j).current_term (m.sys.node i).current_term now in
                let named =
                  one_elected i j (m.sys.node i).current_term v.inv enough
                    (rw (← same) at (v.inv.leads j mem_j l)) in
                absurd (ground (arith, miss, (eq_iff i j).1 named))
          ]

  pub accept-Moved :
      (args : AppendEntriesArgs) (k : ℕ) → B i args.term ≤ k → Moved G B G (acked B i args.term k)
  accept-Moved args k more = record {
    growth = Growth-refl G;
    grows = Grows-refl G;
    more = λ w t. elim (acked-cases B i args.term k w t) [
      | inl (same, now, e) ↦ omega (arith, more, e, ap (λ x. B x t) same, ap (B i) now)
      | inr kept ↦ omega (arith, kept)
    ];
  }

  pub accept-Sound :
      (args : AppendEntriesArgs) (k : ℕ)
      → let s' : System = record m.sys { node = put m.sys.node i r' } in
        Inv members s'
        → Later (m.sys.node i) r'
        → Accepts args (m.sys.node i) r'
        → Placed G args
        → Quotes G args
        → B i args.term ≤ k
        → end_of args ≤ k
        → (k ≡ B i args.term) ⊎ (k ≡ end_of args)
        → Sound members (record m { sys = s' }) G (acked B i args.term k)
  accept-Sound args k inv' later a p q more all one =
      change-Sound _ i r'
        (accept-Change i r' args k mem v.keeps v.ord follows (v.logged.made args.term) p a more all
          one _ (λ j. refl) (λ c u w g. g))
        v inv'
        (rest-Logged members (group_of m) G i r' m.sys.votes m.sys.granted m.sys.counted
          (λ c t w h. h) v.logged
          (record {
            follow = own;
            lead = λ l. ground (arith, l, a.not_leader);
            stands = λ c. ground (arith, c, a.not_candidate);
            term = later.term;
          }))
        v.ord (Grows-refl G) (accept-Moved args k more).more (λ mem'. dated (v.dated i mem'))
        (λ l. ground (arith, l, a.not_leader)) (λ j _ _ _. refl)
    where
      follows : Follows G (m.sys.node i).log
      follows = v.logged.follow i mem

      own : Follows G r'.log
      own =
          rw a.log (
            append_loop-Follows G (m.sys.node i).log args follows (v.logged.made args.term) q a.has)

      dated : Dated (m.sys.node i) → Dated r'
      dated d = record {
        below = λ n b h.
            elim (accept-from G v.ord (m.sys.node i).log args follows (v.logged.made args.term) p
              a.has n b (subst (λ l. Has l n b) a.log h)) [
                | inl old ↦ omega (arith, later.term, d.below n b old)
                | inr new ↦ omega (arith, a.term, Has-le G v.ord args.term n b new)
              ];
        full =
            rw a.log (
              accept-full G v.ord (m.sys.node i).log args follows (v.logged.made args.term) p
                a.has);
      }
