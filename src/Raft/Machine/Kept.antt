-- ===== src/Raft/Machine/Kept.antt =====
-- What a member has acknowledged, it still has, or else a later term's leader was without it.
use dssd.Prelude.{
  ℕ, ◌+◌, ◌/◌, ◌≤◌, ◌<◌, ◌≡◌, subst, ◌⊎◌, inl, inr, String, Bool, true, false, List, [], ◌∷◌, ◌++◌,
  length, length-append, count, contains, take-append, Bool-cases, ◌==◌, str_eq, arith,
}
use dssd.Raft.State.{Raft, LogEntry, is_candidate}
use dssd.Raft.Log.{has_term, lt-of_has_term}
use dssd.Raft.Cluster.{System, put}
use dssd.Raft.Group.History.{History}
use dssd.Raft.Group.Lead.{with_log, with_log-at, with_log-miss, eq_of_test}
use dssd.Raft.Machine.Order.{Has, Has-take, Has-append, Has-snoc}

-- The log of term `w` may have grown, by entries of that term.
pub record Extends (w : ℕ) (l m : List LogEntry) : Type 0 where
  pub back : (n a : ℕ) → n < length l → Has m n a → Has l n a
  pub forth : (n a : ℕ) → Has l n a → Has m n a
  pub longer : length l ≤ length m
  pub lacks : (n t : ℕ) → t < w → 0 < length l → has_term l n t ≡ false → has_term m n t ≡ false

pub record Growth (G G' : History) : Type 0 where
  pub at : (s : ℕ) → Extends s (G s) (G' s)

Extends-refl : (w : ℕ) (l : List LogEntry) → Extends w l l
Extends-refl w l = record {
  back = λ n a lt h. h;
  forth = λ n a h. h;
  longer = omega arith;
  lacks = λ n t lt pos h. h;
}

pub Growth-refl : (G : History) → Growth G G
Growth-refl G = record { at = λ s. Extends-refl s (G s) }

Extends-nil : (w : ℕ) (m : List LogEntry) → Extends w [] m
Extends-nil w m = record {
  back = λ n a lt h. elim lt [ ];
  forth = λ n a h. absurd (omega (arith, lt-of_has_term [] n a h));
  longer = omega arith;
  lacks = λ n t lt pos h. elim pos [ ];
}

Extends-snoc : (w : ℕ) (l : List LogEntry) (e : LogEntry) → e.term ≡ w → Extends w l (l ++ e ∷ [])
Extends-snoc w l e term = record {
  back = λ n a lt h.
      Has-take (l ++ e ∷ []) l (length l) n a (take-append l (e ∷ []) (length l) (omega arith)) lt
        h;
  forth = λ n a h. Has-append l (e ∷ []) n a h;
  longer = omega (arith, length-append l (e ∷ []));
  lacks = λ n t lt pos h. elim (Bool-cases (has_term (l ++ e ∷ []) n t)) [
    | inr no' ↦ no'
    | inl yes' ↦ elim (Has-snoc l e n t yes') [
      | inl old ↦ ground (arith, old, h)
      | inr (_, same) ↦ absurd (omega arith)
    ]
  ];
}

pub Growth-make :
    (G : History) (t : ℕ) (log : List LogEntry) (e : LogEntry)
    → e.term ≡ t
    → (G t ≡ log) ⊎ (G t ≡ [])
    → Growth G (with_log G t (log ++ e ∷ []))
Growth-make G t log e term old = record {
  at = λ s. elim (Bool-cases (s == t)) [
    | inl hit ↦ rw (with_log-at G t s (log ++ e ∷ []) hit) (
        subst (λ u. Extends u (G u) (log ++ e ∷ [])) (eq_of_test s t hit)
          (elim old [
            | inl whole ↦ rw whole (Extends-snoc t log e term)
            | inr none_yet ↦ rw none_yet (Extends-nil t (log ++ e ∷ []))
          ]))
    | inr miss ↦ rw (with_log-miss G t s (log ++ e ∷ []) miss) (Extends-refl s (G s))
  ];
}

-- A leader of a term after `t` and before `b` was without the entry at `n` of term `t`.
pub record Lost (G : History) (t n b : ℕ) : Type 0 where
  pub w : ℕ
  pub after : t < w
  pub before : w < b
  pub begun : 0 < length (G w)
  pub lacks : has_term (G w) n t ≡ false

pub Lost-Growth :
    (G G' : History) (t n b c : ℕ) → Growth G G' → b ≤ c → Lost G t n b → Lost G' t n c
Lost-Growth G G' t n b c g le l = record {
  w = l.w;
  after = l.after;
  before = omega (arith, l.before);
  begun = omega (arith, (g.at l.w).longer, l.begun);
  lacks = (g.at l.w).lacks n t l.after l.begun l.lacks;
}

-- How much of a term's log a member has acknowledged in that term.
abbrev pub Acks : Type 0
Acks = String → ℕ → ℕ

-- What a ballot says of the candidate: it has what the voter has acknowledged.
pub record Voted (s : System) (G : History) (B : Acks) (c : String) (u : ℕ) (v : String)
    : Type 0 where
  pub past : u ≤ (s.node c).current_term
  pub backs :
      is_candidate (s.node c).role ≡ true
      → u ≡ (s.node c).current_term
      → (t n : ℕ) → t < u
      → n < B v t
      → Has (G t) n t
      → Has (s.node c).log n t ⊎ Lost G t n (u + 1)

-- The majority that elected the leader of a term.
pub record Quorum (members : List String) (s : System) (G : History) (B : Acks) (u : ℕ)
    : Type 0 where
  pub voters : String → Bool
  pub enough : length members / 2 + 1 ≤ count voters members
  pub since : (v : String) → voters v ≡ true → u ≤ (s.node v).current_term
  pub backs :
      (v : String)
      → voters v ≡ true
      → (t n : ℕ) → t < u
      → n < B v t
      → Has (G t) n t
      → Has (G u) n t ⊎ Lost G t n u

pub record Keeps (members : List String) (s : System) (G : History) (B : Acks) : Type 0 where
  pub inside : (v : String) (t : ℕ) → B v t ≤ length (G t)
  pub past : (v : String) (t : ℕ) → 0 < B v t → t ≤ (s.node v).current_term
  pub kept :
      (v : String)
      → contains members v ≡ true
      → (t n : ℕ) → n < B v t
      → Has (G t) n t
      → Has (s.node v).log n t ⊎ Lost G t n ((s.node v).current_term + 1)
  pub voted : (c : String) (u : ℕ) (v : String) → s.granted c u v ≡ true → Voted s G B c u v
  pub quorum : (u : ℕ) → 0 < u → 0 < length (G u) → Quorum members s G B u

-- A step of member `i` to `r'`.
pub record Change (members : List String) (s s' : System) (G G' : History) (B B' : Acks)
    (i : String) (r' : Raft) : Type 0 where
  pub node : (j : String) → s'.node j ≡ put s.node i r' j
  pub grown : Growth G G'
  pub term : (s.node i).current_term ≤ r'.current_term
  pub acks : (v : String) (t : ℕ) → (B' v t ≡ B v t) ⊎ ((s.node v).current_term ≤ t)
  pub others : (v : String) (t : ℕ) → str_eq i v ≡ false → B' v t ≡ B v t
  pub inside : (v : String) (t : ℕ) → B' v t ≤ length (G' t)
  pub past : (t : ℕ) → 0 < B' i t → t ≤ r'.current_term
  pub kept :
      (t n : ℕ) → n < B' i t → Has (G' t) n t → Has r'.log n t ⊎ Lost G' t n (r'.current_term + 1)
  pub stands :
      is_candidate r'.role ≡ true
      → ((is_candidate (s.node i).role ≡ true)
          × (r'.current_term ≡ (s.node i).current_term)
          × (r'.log ≡ (s.node i).log))
        ⊎ ((s.node i).current_term < r'.current_term)
  pub ballots :
      (c : String) (u : ℕ) (v : String)
      → s'.granted c u v ≡ true
      → (s.granted c u v ≡ true) ⊎ Voted s' G' B' c u v
  pub newborn : (u : ℕ) → 0 < u → length (G u) ≡ 0 → 0 < length (G' u) → Quorum members s' G' B' u
