-- ===== src/Raft/Machine/Changes.antt =====
-- The changes of a member that leave the history alone, and those of a leader.
use dssd.Prelude.{
  ℕ, ◌+◌, ◌≤◌, ◌<◌, ◌≡◌, refl, ap, subst, ◌∙◌, ◌⊎◌, inl, inr, String, true, false, List, [], ◌∷◌,
  ◌++◌, length, length-append, contains, Bool-cases, ◌==◌, ◌&&◌, str_eq, str_eq→eq, eq_refl,
  if◌then◌else◌, arith,
}
use dssd.Raft.State.{Raft, LogEntry}
use dssd.Raft.Cluster.{System, put}
use dssd.Raft.Group.History.{History}
use dssd.Raft.Group.Effects.{Calm}
use dssd.Raft.Group.Lead.{with_log, with_log-hit, with_log-miss, eq_of_test, Makes, not_candidate}
use dssd.Raft.Machine.Order.{Has, Has-append}
use dssd.Raft.Machine.Kept.{
  Growth, Growth-refl, Growth-make, Lost, Lost-Growth, Acks, Voted, Quorum, Keeps, Change,
}

-- Member `i` has acknowledged `n` entries of term `t`.
abbrev pub acked : Acks → String → ℕ → ℕ → Acks
acked B i t n v s = if str_eq i v && s == t then n else B v s

pub acked-hit : (B : Acks) (i : String) (t n : ℕ) → acked B i t n i t ≡ n
acked-hit B i t n = ground (arith, eq_refl i)

pub acked-miss :
    (B : Acks) (i : String) (t n : ℕ) (v : String) (s : ℕ)
    → (str_eq i v && s == t) ≡ false
    → acked B i t n v s ≡ B v s
acked-miss B i t n v s h = rw h refl

-- Two cases for what a member has acknowledged.
pub acked-cases :
    (B : Acks) (i : String) (t n : ℕ) (v : String) (s : ℕ)
    → ((i ≡ v) × (s ≡ t) × (acked B i t n v s ≡ n)) ⊎ (acked B i t n v s ≡ B v s)
acked-cases B i t n v s = elim (Bool-cases (str_eq i v && s == t)) [
  | inl hit ↦ inl (str_eq→eq i v (ground arith), ground arith, rw hit refl)
  | inr miss ↦ inr (rw miss refl)
]

module _ {members : List String} {s s' : System} {G : History} {B : Acks} (i : String) (r' : Raft)
    (node : (j : String) → s'.node j ≡ put s.node i r' j) (mem : contains members i ≡ true)
    (k : Keeps members s G B) where
  -- The node is as quiet as `Calm` says.
  pub Calm-Change :
      (s.node i).current_term ≤ r'.current_term
      → Calm (s.node i) r'
      → ((c : String) (u : ℕ) (v : String)
          → s'.granted c u v ≡ true
          → (s.granted c u v ≡ true) ⊎ Voted s' G B c u v)
      → Change members s s' G G B B i r'
  Calm-Change term calm ballots = record {
    node = node;
    grown = Growth-refl G;
    term = term;
    acks = λ v t. inl refl;
    others = λ v t miss. refl;
    inside = k.inside;
    past = λ t pos. omega (arith, k.past i t pos);
    kept = λ t n lt h. elim (k.kept i mem t n lt h) [
      | inl has ↦ inl (rw calm.log has)
      | inr l ↦ inr (Lost-Growth G G t n _ _ (Growth-refl G) (omega arith) l)
    ];
    stands = λ c. elim (calm.stands c) [
      | inl (stood, same) ↦ inl (stood, same, calm.log)
      | inr newer ↦ inr newer
    ];
    ballots = ballots;
    newborn = λ u pos none_yet begun. absurd (omega arith);
  }

  -- A leader makes an entry.
  pub make-Change :
      (e : LogEntry)
      → Makes (s.node i) r' e
      → (G (s.node i).current_term ≡ (s.node i).log) ⊎ (G (s.node i).current_term ≡ [])
      → let t = (s.node i).current_term in
        let G' = with_log G t ((s.node i).log ++ e ∷ []) in
        let B' = acked B i t (length (s.node i).log + 1) in
        ((c : String) (u : ℕ) (v : String) → s'.granted c u v ≡ true → s.granted c u v ≡ true)
        → (length (G t) ≡ 0 → Quorum members s' G' B' t)
        → Change members s s' G G' B B' i r'
  make-Change e makes old ballots born = record {
    node = node;
    grown = grown;
    term = omega (arith, makes.term);
    acks = λ v u. elim (acked-cases B i t (length (s.node i).log + 1) v u) [
      | inl (same, now, _) ↦ inr (omega (arith, now, ap (λ x. (s.node x).current_term) same))
      | inr kept ↦ inl kept
    ];
    others = λ v u miss. acked-miss B i t (length (s.node i).log + 1) v u (ground (arith, miss));
    inside = λ v u. elim (acked-cases B i t (length (s.node i).log + 1) v u) [
      | inl (same, now, e') ↦
          omega
            (arith, e', ap (λ x. length (G' x)) now, whole, length-append (s.node i).log (e ∷ []))
      | inr kept ↦ omega (arith, kept, k.inside v u, (grown.at u).longer)
    ];
    past = λ u pos. elim (acked-cases B i t (length (s.node i).log + 1) i u) [
      | inl (same, now, e') ↦ omega (arith, now, makes.term)
      | inr kept ↦ omega (arith, k.past i u (omega (arith, kept)), makes.term)
    ];
    kept = λ u n lt h. elim (acked-cases B i t (length (s.node i).log + 1) i u) [
      | inl (same, now, e') ↦
          inl (rw makes.log (subst (λ l. Has l n u) (ap G' now ∙ with_log-hit G t _) h))
      | inr kept ↦ rw (makes.log, makes.term) (still u n (omega (arith, kept)) h)
    ];
    stands = λ c. ground (arith, c, not_candidate r' makes.leads);
    ballots = λ c u v g. inl (ballots c u v g);
    newborn = λ u pos none_yet begun. elim (Bool-cases (u == t)) [
      | inl hit ↦
          subst (λ x. length (G x) ≡ 0 → Quorum members s' G' B' x) (eq_of_test u t hit) born
            none_yet
      | inr miss ↦ absurd (omega (arith, ap length (with_log-miss G t u _ miss)))
    ];
  }
    where
      t : ℕ
      t = (s.node i).current_term

      G' : History
      G' = with_log G t ((s.node i).log ++ e ∷ [])

      B' : Acks
      B' = acked B i t (length (s.node i).log + 1)

      grown : Growth G G'
      grown = Growth-make G t (s.node i).log e makes.of_term old

      whole : length (G' t) ≡ length ((s.node i).log ++ e ∷ [])
      whole = ap length (with_log-hit G t ((s.node i).log ++ e ∷ []))

      still :
          (u n : ℕ)
          → n < B i u
          → Has (G' u) n u
          → Has ((s.node i).log ++ e ∷ []) n u ⊎ Lost G' u n (t + 1)
      still u n lt h =
          elim (k.kept i mem u n lt ((grown.at u).back n u (omega (arith, k.inside i u)) h)) [
            | inl has ↦ inl (Has-append (s.node i).log (e ∷ []) n u has)
            | inr l ↦ inr (Lost-Growth G G' u n _ _ grown (omega arith) l)
          ]
