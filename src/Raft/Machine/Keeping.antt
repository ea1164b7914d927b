-- ===== src/Raft/Machine/Keeping.antt =====
-- Every change of a member leaves what the group keeps.
use native.Mathlib.Decide.{dec_lt}
use dssd.Prelude.{
  ℕ, ◌+◌, ◌≤◌, ◌<◌, ◌≡◌, refl, sym, ap, subst, ◌∙◌, ◌⊎◌, inl, inr, String, true, false, List,
  length, contains, Bool-cases, str_eq, str_eq→eq, eq_refl, arith,
}
use dssd.Raft.State.{Raft, is_candidate}
use dssd.Raft.Cluster.{System}
use dssd.Raft.Cluster.Invariant.{Inv, put-cases}
use dssd.Raft.Group.History.{History}
use dssd.Raft.Machine.Order.{Has}
use dssd.Raft.Machine.Kept.{Lost, Lost-Growth, Acks, Voted, Quorum, Keeps, Change}

module _ {members : List String} {s s' : System} {G G' : History} {B B' : Acks} {i : String}
    {r' : Raft} (inv : Inv members s) (ch : Change members s s' G G' B B' i r')
    (k : Keeps members s G B) where
  -- A property of a member after the change.
  after : (P : Raft → Type 0) (j : String) → (i ≡ j → P r') → P (s.node j) → P (s'.node j)
  after P j new old = subst P (sym (ch.node j)) (put-cases P s.node i j r' new old)

  terms : (j : String) → (s.node j).current_term ≤ (s'.node j).current_term
  terms j =
      after (λ r. (s.node j).current_term ≤ r.current_term) j
        (λ same. subst (λ x. (s.node x).current_term ≤ r'.current_term) same ch.term) (omega arith)

  -- An old acknowledgement of an old entry.
  back :
      (v : String) (t n : ℕ)
      → B' v t ≡ B v t
      → n < B' v t
      → Has (G' t) n t
      → (n < B v t) × Has (G t) n t
  back v t n same lt h = (omega arith, (ch.grown.at t).back n t (omega (arith, k.inside v t)) h)

  lift : (t n b c : ℕ) → b ≤ c → Lost G t n b → Lost G' t n c
  lift t n b c le l = Lost-Growth G G' t n b c ch.grown le l

  kept_other :
      (v : String)
      → contains members v ≡ true
      → str_eq i v ≡ false
      → (t n : ℕ) → n < B' v t
      → Has (G' t) n t
      → Has (s.node v).log n t ⊎ Lost G' t n ((s.node v).current_term + 1)
  kept_other v mem miss t n lt h =
      let (lt', h') = back v t n (ch.others v t miss) lt h in
      elim (k.kept v mem t n lt' h') [
        | inl has ↦ inl has
        | inr l ↦ inr (lift t n _ _ (omega arith) l)
      ]

  -- A ballot from before.
  old_ballot : (c : String) (u : ℕ) (v : String) → s.granted c u v ≡ true → Voted s' G' B' c u v
  old_ballot c u v g =
      let b : Voted s G B c u v = k.voted c u v g in
      record {
        past = omega (arith, b.past, terms c);
        backs =
            after
              (λ r.
                is_candidate r.role ≡ true
                → u ≡ r.current_term
                → (t n : ℕ) → t < u
                → n < B' v t
                → Has (G' t) n t
                → Has r.log n t ⊎ Lost G' t n (u + 1))
              c
              (λ same stands now t n lt ack h. elim (ch.stands stands) [
                | inl (stood, kept, log) ↦
                    let b' : Voted s G B i u v = subst (λ x. Voted s G B x u v) (sym same) b in
                    rw log (backed (s.node i) b'.backs stood (now ∙ kept) t n lt ack h)
                | inr newer ↦ absurd (omega (arith, b.past, ap (λ x. (s.node x).current_term) same))
              ])
              (backed (s.node c) b.backs);
      }
    where
      backed :
          (r : Raft)
          → (is_candidate r.role ≡ true
              → u ≡ r.current_term
              → (t n : ℕ) → t < u
              → n < B v t
              → Has (G t) n t
              → Has r.log n t ⊎ Lost G t n (u + 1))
          → is_candidate r.role ≡ true
          → u ≡ r.current_term
          → (t n : ℕ) → t < u
          → n < B' v t
          → Has (G' t) n t
          → Has r.log n t ⊎ Lost G' t n (u + 1)
      backed r backs stands now t n lt ack h = elim (ch.acks v t) [
        | inr late ↦ absurd (omega (arith, late, (inv.cast c u v g).past))
        | inl same ↦
            let (ack', h') = back v t n same ack h in
            elim (backs stands now t n lt ack' h') [
              | inl has ↦ inl has
              | inr l ↦ inr (lift t n _ _ (omega arith) l)
            ]
      ]

  old-Quorum : (u : ℕ) → Quorum members s G B u → Quorum members s' G' B' u
  old-Quorum u q = record {
    voters = q.voters;
    enough = q.enough;
    since = λ v yes'. omega (arith, q.since v yes', terms v);
    backs = λ v yes' t n lt ack h. elim (ch.acks v t) [
      | inr late ↦ absurd (omega (arith, late, q.since v yes'))
      | inl same ↦
          let (ack', h') = back v t n same ack h in
          elim (q.backs v yes' t n lt ack' h') [
            | inl has ↦ inl ((ch.grown.at u).forth n t has)
            | inr l ↦ inr (lift t n u u (omega arith) l)
          ]
    ];
  }

  changed : s'.node i ≡ r'
  changed = ch.node i ∙ rw (eq_refl i) refl

  unchanged : (v : String) → str_eq i v ≡ false → s'.node v ≡ s.node v
  unchanged v miss = ch.node v ∙ rw miss refl

  past_i : (v : String) (t : ℕ) → i ≡ v → 0 < B' v t → t ≤ (s'.node v).current_term
  past_i v t same =
      subst (λ x. 0 < B' x t → t ≤ (s'.node x).current_term) same λ pos. rw changed (ch.past t pos)

  kept_i :
      (v : String) (t n : ℕ)
      → i ≡ v
      → n < B' v t
      → Has (G' t) n t
      → Has (s'.node v).log n t ⊎ Lost G' t n ((s'.node v).current_term + 1)
  kept_i v t n same =
      subst
        (λ x.
          n < B' x t
          → Has (G' t) n t
          → Has (s'.node x).log n t ⊎ Lost G' t n ((s'.node x).current_term + 1))
        same λ lt h. rw changed (ch.kept t n lt h)

  pub Change-Keeps : Keeps members s' G' B'
  Change-Keeps = record {
    inside = ch.inside;
    past = λ v t pos. elim (Bool-cases (str_eq i v)) [
      | inl hit ↦ past_i v t (str_eq→eq i v hit) pos
      | inr miss ↦ omega (arith, k.past v t (omega (arith, ch.others v t miss)), terms v)
    ];
    kept = λ v mem t n lt h. elim (Bool-cases (str_eq i v)) [
      | inl hit ↦ kept_i v t n (str_eq→eq i v hit) lt h
      | inr miss ↦ rw (unchanged v miss) (kept_other v mem miss t n lt h)
    ];
    voted = λ c u v g. elim (ch.ballots c u v g) [ inl old ↦ old_ballot c u v old | inr new ↦ new ];
    quorum = λ u pos begun. elim (dec_lt 0 (length (G u))) [
      | yes old ↦ old-Quorum u (k.quorum u pos old)
      | no new ↦ ch.newborn u pos (omega arith) begun
    ];
  }
