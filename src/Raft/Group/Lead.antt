-- ===== src/Raft/Group/Lead.antt =====
-- A leader puts an entry of its term into its log: the history of this term grows by it.
use dssd.Prelude.{
  ℕ, ◌+◌, ◌/◌, ◌≤◌, ◌<◌, ◌≡◌, refl, sym, ap, subst, ◌∙◌, ◌⊎◌, inl, inr, String, true, false, List,
  [], ◌∷◌, ◌++◌, length, contains, count, Bool-cases, str_eq, eq_refl, eq_iff, ◌==◌, if◌then◌else◌,
  count_overlap, arith,
}
use dssd.Raft.State.{Raft, LogEntry, is_leader, is_candidate}
use dssd.Raft.Cluster.{Ballots, System, put}
use dssd.Raft.Cluster.Invariant.{Inv, put-cases}
use dssd.Raft.Group.{Group}
use dssd.Raft.Group.History.{History, Follows, Grows, Follows-grow, Follows-snoc, Quotes-grow}
use dssd.Raft.Group.Invariant.{Elected, Logged}

-- The history with a new log for one term.
abbrev pub with_log : History → ℕ → List LogEntry → History
with_log G t log s = if s == t then log else G s

pub with_log-hit : (G : History) (t : ℕ) (log : List LogEntry) → with_log G t log t ≡ log
with_log-hit G t log = ground arith

pub with_log-at :
    (G : History) (t s : ℕ) (log : List LogEntry) → (s == t) ≡ true → with_log G t log s ≡ log
with_log-at G t s log h = rw h refl

pub with_log-miss :
    (G : History) (t s : ℕ) (log : List LogEntry) → (s == t) ≡ false → with_log G t log s ≡ G s
with_log-miss G t s log h = rw h refl

pub eq_of_test : (a b : ℕ) → (a == b) ≡ true → b ≡ a
eq_of_test a b h = ground arith

pub append_nil : (xs : List LogEntry) → xs ++ [] ≡ xs
append_nil [] = refl
append_nil (x ∷ xs) = ap (◌∷◌ x) (append_nil xs)

pub with_log-Grows :
    (G : History) (t : ℕ) (log : List LogEntry) (e : LogEntry)
    → (G t ≡ log) ⊎ (G t ≡ [])
    → Grows G (with_log G t (log ++ e ∷ []))
with_log-Grows G t log e old = record {
  more = λ s. elim (Bool-cases (s == t)) [
    | inl hit ↦
        subst (λ u. (xs : List LogEntry) × (with_log G t (log ++ e ∷ []) u ≡ G u ++ xs))
          (eq_of_test s t hit)
          (elim old [
            | inl whole ↦ (e ∷ [], with_log-hit G t _ ∙ ap (λ l. l ++ e ∷ []) (sym whole))
            | inr none_yet ↦
                (log ++ e ∷ [], with_log-hit G t _ ∙ ap (λ l. l ++ (log ++ e ∷ [])) (sym none_yet))
          ])
    | inr miss ↦ ([], with_log-miss G t s _ miss ∙ sym (append_nil (G s)))
  ];
}

-- Two members with a majority in one term are one.
pub one_elected :
    {members : List String} {s : System} (i j : String) (t : ℕ)
    → Inv members s
    → length members / 2 + 1 ≤ count (s.granted i t) members
    → length members / 2 + 1 ≤ count (s.granted j t) members
    → i ≡ j
one_elected {members} {s} i j t v mi mj =
    let (w, gi, gj) = count_overlap (s.granted i t) (s.granted j t) members (omega arith) in
    v.single i j t w gi gj

-- What the leader of a term has become.
pub record Makes (r r' : Raft) (e : LogEntry) : Type 0 where
  pub log : r'.log ≡ r.log ++ e ∷ []
  pub of_term : e.term ≡ r.current_term
  pub term : r'.current_term ≡ r.current_term
  pub leads : is_leader r'.role ≡ true

pub not_candidate : (r : Raft) → is_leader r.role ≡ true → is_candidate r.role ≡ false
not_candidate r h = ground arith

module _ (members : List String) (g : Group) (G : History) (i : String) (r' : Raft) (e : LogEntry)
    (votes : String → ℕ → ℕ) (counted : Ballots) (mem : contains members i ≡ true)
    (enough : length members / 2 + 1 ≤ count (g.sys.granted i (g.sys.node i).current_term) members)
    (old : (G (g.sys.node i).current_term ≡ (g.sys.node i).log)
      ⊎ (G (g.sys.node i).current_term ≡ []))
    (k : Makes (g.sys.node i) r' e) (inv : Inv members g.sys) (v : Logged members g G) where
  t : ℕ
  t = (g.sys.node i).current_term

  G' : History
  G' = with_log G t ((g.sys.node i).log ++ e ∷ [])

  s' : System
  s' = record {
    node = put g.sys.node i r';
    votes = votes;
    granted = g.sys.granted;
    counted = counted;
  }

  grows : Grows G G'
  unfolding G' t
  grows = with_log-Grows G t (g.sys.node i).log e old

  whole : G' t ≡ (g.sys.node i).log ++ e ∷ []
  unfolding G' t
  whole = with_log-hit G t ((g.sys.node i).log ++ e ∷ [])

  own : Follows G' ((g.sys.node i).log ++ e ∷ [])
  unfolding t
  own =
      Follows-snoc G' (g.sys.node i).log e
        (Follows-grow G G' (g.sys.node i).log grows (v.follow i mem)) (ap G' k.of_term ∙ whole)

  elected : Elected members s' t
  unfolding s' t
  elected = record {
    c = i;
    member = mem;
    majority = enough;
    past = rw eq_refl (omega (arith, k.term));
    stands_not = λ _. rw eq_refl (not_candidate r' k.leads);
  }

  kept_elected : (u : ℕ) → Elected members g.sys u → Elected members s' u
  unfolding s'
  kept_elected u d = record {
    c = d.c;
    member = d.member;
    majority = d.majority;
    past = (both d.past d.stands_not).0;
    stands_not = (both d.past d.stands_not).1;
  }
    where
      Fine : Raft → Type 0
      Fine r = (u ≤ r.current_term) × (u ≡ r.current_term → is_candidate r.role ≡ false)

      both :
          u ≤ (g.sys.node d.c).current_term
          → (u ≡ (g.sys.node d.c).current_term → is_candidate (g.sys.node d.c).role ≡ false)
          → Fine (put g.sys.node i r' d.c)
      both past stands_not =
          put-cases Fine g.sys.node i d.c r'
            (λ same. (
              omega (arith, k.term, ap (λ j. (g.sys.node j).current_term) same),
              λ _. not_candidate r' k.leads,
            ))
            (past, stands_not)

  -- Whoever leads has the log of its term.
  leads :
      (j : String)
      → contains members j ≡ true
      → is_leader (put g.sys.node i r' j).role ≡ true
      → (put g.sys.node i r' j).log ≡ G' (put g.sys.node i r' j).current_term
  unfolding t G'
  leads j h l = elim (Bool-cases (str_eq i j)) [
    | inl hit ↦ rw hit (k.log ∙ sym (ap G' k.term ∙ whole))
    | inr miss ↦
        let l' : is_leader (g.sys.node j).role ≡ true = rw miss at l in
        rw miss (elim (Bool-cases ((g.sys.node j).current_term == t)) [
          | inl now ↦
              let same = eq_of_test (g.sys.node j).current_term t now in
              let named = one_elected i j t inv enough (rw (← same) at (inv.leads j h l')) in
              absurd (ground (arith, miss, (eq_iff i j).1 named))
          | inr other ↦ v.lead j h l' ∙ sym (with_log-miss G t (g.sys.node j).current_term _ other)
        ])
  ]

  pub make-Logged :
      Logged members
        (record g {
          sys = record {
            node = put g.sys.node i r';
            votes = votes;
            granted = g.sys.granted;
            counted = counted;
          };
        })
        (with_log G (g.sys.node i).current_term ((g.sys.node i).log ++ e ∷ []))
  unfolding s' t G'
  make-Logged = record {
    follow = λ j h.
        put-cases (λ r. Follows G' r.log) g.sys.node i j r' (λ _. rw k.log own)
          (Follows-grow G G' (g.sys.node j).log grows (v.follow j h));
    lead = leads;
    stood = λ j h.
        put-cases (λ r. is_candidate r.role ≡ true → 0 < r.current_term) g.sys.node i j r'
          (λ _ c. ground (arith, c, not_candidate r' k.leads)) (v.stood j h);
    made = λ s. elim (Bool-cases (s == t)) [
      | inl hit ↦ subst (λ u. Follows G' (G' u)) (eq_of_test s t hit) (rw whole own)
      | inr miss ↦
          rw (with_log-miss G t s ((g.sys.node i).log ++ e ∷ []) miss)
            (Follows-grow G G' (G s) grows (v.made s))
    ];
    quoted = λ args m. Quotes-grow G G' args grows (v.quoted args m);
    born = λ s pos. elim (Bool-cases (s == t)) [
      | inl hit ↦ inr (subst (Elected members s') (eq_of_test s t hit) elected)
      | inr miss ↦ elim (v.born s pos) [
        | inl none_yet ↦ inl (with_log-miss G t s _ miss ∙ none_yet)
        | inr d ↦ inr (kept_elected s d)
      ]
    ];
  }
